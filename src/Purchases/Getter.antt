-- ===== src/Purchases/Getter.antt =====
-- internal/purchase/getter.go
use merch.Base.{
  ◌+◌, String, Bool, true, false, ◌&&◌, List, [], ◌∷◌, ◌++◌, ◌==◌, leb, str_eq, if◌then◌else◌,
}
use merch.Base.Lists.{filter}
use merch.Postgres.Schema.{Uuid, ItemRow, PurchaseRow}
use merch.Postgres.Session.{Env, Action, Statement, done, Executor, query, lift, wrapped, ◌>>=◌}
use merch.Postgres.Rows.{collect_rows}
use merch.Purchases.Model.{ItemCountRow, ItemCount, row_to_item_count}

-- JOIN items i ON p.item_id = i.id: a row with a count of one for each item that matches
unfoldable pub joined_items : PurchaseRow → List ItemRow → List ItemCountRow
joined_items p [] = []
joined_items p (i ∷ items) =
    let rest = joined_items p items in
    if i.id == p.item_id
    then record { user_id = p.user_id; item_id = p.item_id; count = 1; item_name = i.name } ∷ rest
    else rest

unfoldable pub join_items : List ItemRow → List PurchaseRow → List ItemCountRow
join_items items [] = []
join_items items (p ∷ ps) = joined_items p items ++ join_items items ps

-- GROUP BY user_id, item_id, item_name
abbrev pub same_group : ItemCountRow → ItemCountRow → Bool
same_group x y =
    x.user_id == y.user_id && (x.item_id == y.item_id && str_eq x.item_name y.item_name)

unfoldable pub add_to_group : ItemCountRow → List ItemCountRow → List ItemCountRow
add_to_group x [] = x ∷ []
add_to_group x (y ∷ ys) =
    if same_group x y then record y { count = x.count + y.count } ∷ ys else y ∷ add_to_group x ys

unfoldable pub group_rows : List ItemCountRow → List ItemCountRow
group_rows [] = []
group_rows (x ∷ xs) = add_to_group x (group_rows xs)

-- ORDER BY item_name, item_id; `collate a b` says that the database's collation puts `a` before `b`.
module _ (collate : String → String → Bool) where
  unfoldable pub before : ItemCountRow → ItemCountRow → Bool
  before x y =
      if collate x.item_name y.item_name
      then true
      else if collate y.item_name x.item_name
      then false
      else leb x.item_id y.item_id

  unfoldable pub insert_row : ItemCountRow → List ItemCountRow → List ItemCountRow
  insert_row x [] = x ∷ []
  insert_row x (y ∷ ys) = if before x y then x ∷ y ∷ ys else y ∷ insert_row x ys

  unfoldable pub order_rows : List ItemCountRow → List ItemCountRow
  order_rows [] = []
  order_rows (x ∷ xs) = insert_row x (order_rows xs)

  unfoldable pub select_item_counts : Uuid → Statement (List ItemCountRow)
  select_item_counts id d t =
      done
        (order_rows (group_rows (join_items t.items (filter (λ p. p.user_id == id) t.purchases)))) t

  module _ (env : Env) where
    -- getItemCountsByUserID
    unfoldable pub find_item_counts_by_user_id : Executor → Uuid → Action (List ItemCount)
    find_item_counts_by_user_id db user_id = do
      rows ← query env db (select_item_counts user_id)
      lift (collect_rows row_to_item_count rows)

    -- Getter.GetItemCountsByUserID
    unfoldable pub get_item_counts_by_user_id : Executor → Uuid → Action (List ItemCount)
    unfolding find_item_counts_by_user_id
    get_item_counts_by_user_id db user_id =
        wrapped "purchase.Getter" (find_item_counts_by_user_id db user_id)
