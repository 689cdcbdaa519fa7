-- ===== src/Items.antt =====
-- internal/item/item.go and internal/item/getter.go
pub mod Lookup
use merch.Base.{String, List, str_eq, if◌then◌else◌}
use merch.Base.Int.{ℤ}
use merch.Base.Lists.{filter}
use merch.Go.Errors.{sentinel, no_rows, item_not_exist, Result, ok, err, panic, errors_is}
use merch.Postgres.Schema.{Uuid, ItemRow}
use merch.Postgres.Session.{Env, Action, Statement, done, Executor, query, lift, wrapped, ◌>>=◌}
use merch.Postgres.Rows.{collect_exactly_one_row}

pub record Item : Type 0 where
  pub id : Uuid
  pub name : String
  pub price : ℤ

unfoldable pub row_to_item : ItemRow → Result Item
row_to_item collected =
    ok (record { id = collected.id; name = collected.name; price = collected.price })

-- SELECT id, name, price FROM items WHERE name = $1
unfoldable pub select_item_by_name : String → Statement (List ItemRow)
select_item_by_name name d t = done (filter (λ i. str_eq i.name name) t.items) t

no_rows_as_not_exist : Result Item → Result Item
no_rows_as_not_exist (ok i) = ok i
no_rows_as_not_exist (err e) = if errors_is e no_rows then err (sentinel item_not_exist) else err e
no_rows_as_not_exist panic = panic

unfoldable pub exactly_one_item : List ItemRow → Result Item
unfolding no_rows_as_not_exist collect_exactly_one_row row_to_item errors_is
exactly_one_item rows = no_rows_as_not_exist (collect_exactly_one_row row_to_item rows)

module _ (env : Env) where
  -- getItemByName
  unfoldable pub find_item_by_name : Executor → String → Action Item
  find_item_by_name db name = do
    rows ← query env db (select_item_by_name name)
    lift (exactly_one_item rows)

  -- Getter.GetItemByName
  unfoldable pub get_item_by_name : Executor → String → Action Item
  unfolding find_item_by_name
  get_item_by_name db name = wrapped "item.Getter" (find_item_by_name db name)
