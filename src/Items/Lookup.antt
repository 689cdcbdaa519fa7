-- ===== src/Items/Lookup.antt =====
-- What the getter of internal/item returns.
use merch.Base.{String, ◌≡◌, refl, Option, none, some, List, [], ◌∷◌, arith, str_eq, if◌then◌else◌}
use merch.Base.Lists.{filter}
use merch.Postgres.Schema.{ItemRow}
use merch.Postgres.Session.{Env, World, pool, arrived}
use merch.Postgres.Triples.{Ends, Ends-wrapped}
use merch.Postgres.Transactions.{Yields, Yields-mono}
use merch.Postgres.Pool.{TablesAre, read-Ends}
use merch.Items.{Item, exactly_one_item, select_item_by_name, find_item_by_name, get_item_by_name}

unfoldable pub find_item : String → List ItemRow → Option ItemRow
find_item name [] = none
find_item name (i ∷ items) = if str_eq i.name name then some i else find_item name items

abbrev pub item_of : ItemRow → Item
item_of r = record { id = r.id; name = r.name; price = r.price }

pub record IsItemNamed (name : String) (items : List ItemRow) (i : Item) : Type 0 where
  pub row : ItemRow
  pub found : find_item name items ≡ some row
  pub item : i ≡ item_of row

one_row :
    (rows : List ItemRow)
    → Yields (λ i. (r : ItemRow) × (rows ≡ r ∷ []) × (i ≡ item_of r)) (exactly_one_item rows)
unfolding exactly_one_item
one_row [] = tt
one_row (r ∷ []) = (r, refl, refl)
one_row (r ∷ x ∷ rows) = tt

filter-find_item :
    (name : String) (items : List ItemRow) (r : ItemRow) (rest : List ItemRow)
    → filter (λ i. str_eq i.name name) items ≡ r ∷ rest
    → find_item name items ≡ some r
unfolding filter find_item
filter-find_item name [] r rest e = cc
filter-find_item name (i ∷ items) r rest e = ground (arith, filter-find_item name items r rest)

IsNamed-Yields :
    (name : String) (items : List ItemRow)
    → Yields (IsItemNamed name items) (exactly_one_item (filter (λ i. str_eq i.name name) items))
IsNamed-Yields name items =
    Yields-mono _ (IsItemNamed name items)
      (exactly_one_item (filter (λ i. str_eq i.name name) items))
      (λ i (r, e, same). record {
        row = r;
        found = filter-find_item name items r [] e;
        item = same;
      })
      (one_row (filter (λ i. str_eq i.name name) items))

-- GetItemByName on the pool does not panic and leaves the tables as the other clients made them; if
-- it returns, it returns the item with that name in them.
pub get_item_by_name-Ends :
    (env : Env) (name : String) (w : World)
    → Ends
        (λ i v. (v.tables ≡ arrived env w) × IsItemNamed name (arrived env w).items i)
        (TablesAre (arrived env w))
        (get_item_by_name env pool name w)
unfolding get_item_by_name find_item_by_name select_item_by_name
get_item_by_name-Ends env name w =
    Ends-wrapped "item.Getter" _ (TablesAre (arrived env w)) (find_item_by_name env pool name) w (
      read-Ends env (select_item_by_name name) exactly_one_item w _
        (IsItemNamed name (arrived env w).items) refl (IsNamed-Yields name (arrived env w).items))
