-- ===== src/Purchases/Purchaser.antt =====
-- internal/purchase/purchaser.go. `getUserForUpdate` has the text of `getUser` of internal/user and
-- a FOR UPDATE; `updateUserBalance` stands in Users/Balance.antt.
use merch.Base.{String, List, [], ◌∷◌, ◌==◌, if◌then◌else◌}
use merch.Base.Int.{ℤ, pos, ◌-ℤ◌, ltb_ℤ}
use merch.Base.Lists.{any}
use merch.Go.Errors.{
  unique_violation, check_violation, foreign_key_violation, numeric_value_out_of_range, pg_error,
  not_enough,
}
use merch.Go.Words.{wrap64}
use merch.Postgres.Schema.{Uuid, PurchaseRow, in_integer, ge_0}
use merch.Postgres.Session.{
  Env, Action, Statement, Defaults, done, refused, Executor, pool, tx, query, begin, commit,
  deferring_rollback, pure, fail_with, lift, wrapped, ◌>>=◌, ◌>>◌,
}
use merch.Postgres.Rows.{collect_exactly_one_row}
use merch.Users.Model.{User}
use merch.Users.Getter.{select_user_by_id, exactly_one_user}
use merch.Users.Balance.{update_user_balance}
use merch.Items.{Item, get_item_by_name}
use merch.Purchases.Model.{Purchase, row_to_purchase}

abbrev pub new_purchase_row : Defaults → Uuid → Uuid → ℤ → PurchaseRow
new_purchase_row d user_id item_id amount = record {
  id = d.ids 0;
  created_at = d.created_at;
  user_id = user_id;
  item_id = item_id;
  amount = amount;
}

-- INSERT INTO purchases (user_id, item_id, amount) VALUES (…) RETURNING …
unfoldable pub insert_purchase : Uuid → Uuid → ℤ → Statement (List PurchaseRow)
insert_purchase user_id item_id amount d t =
    let row = new_purchase_row d user_id item_id amount in
    if in_integer amount
    then if ge_0 amount
      then if any (λ x. x.id == d.ids 0) t.purchases
        then refused (pg_error unique_violation "purchases_pkey")
        else if any (λ u. u.id == user_id) t.users
        then if any (λ i. i.id == item_id) t.items
          then done (row ∷ []) (record t { purchases = row ∷ t.purchases })
          else refused (pg_error foreign_key_violation "purchases_item_id_fkey")
        else refused (pg_error foreign_key_violation "purchases_user_id_fkey")
      else refused (pg_error check_violation "purchases_amount_ge_0")
    else refused (pg_error numeric_value_out_of_range "")

module _ (env : Env) where
  unfoldable pub get_user_for_update : Executor → Uuid → Action User
  get_user_for_update db id = do
    rows ← query env db (select_user_by_id id)
    lift (exactly_one_user rows)

  unfoldable pub create_purchase : Executor → Uuid → Uuid → ℤ → Action Purchase
  create_purchase db user_id item_id amount = do
    rows ← query env db (insert_purchase user_id item_id amount)
    lift (collect_exactly_one_row row_to_purchase rows)

  -- from `createPurchase` to the end
  unfoldable pub record_purchase : Uuid → Item → ℤ → Action Purchase
  record_purchase user_id i balance = do
    p ← create_purchase tx user_id i.id i.price
    update_user_balance env tx user_id balance
    commit env
    pure p

  -- what runs between `Begin` and the deferred `Rollback`
  unfoldable pub purchase_in_tx : Item → Uuid → Action Purchase
  purchase_in_tx i user_id = do
    u ← get_user_for_update tx user_id
    let balance = wrap64 (u.balance -ℤ i.price)
    if ltb_ℤ balance (pos 0) then fail_with not_enough else record_purchase user_id i balance

  -- Purchaser.PurchaseByName, on the pool
  unfoldable pub purchase_by_name : String → Uuid → Action Purchase
  purchase_by_name item_name user_id = wrapped "purhcase.Purchaser" (do
    i ← get_item_by_name env pool item_name
    begin env
    deferring_rollback (purchase_in_tx i user_id))
