-- ===== src/Purchases/Listing.antt =====
-- What the getter of internal/purchase returns.
use merch.Base.{◌*◌, String, ◌≡◌, refl, Bool, List, [], ◌∷◌, map, ◌==◌}
use merch.Base.Lists.{filter}
use merch.Go.Errors.{ok}
use merch.Postgres.Schema.{Uuid, Tables}
use merch.Postgres.Session.{Env, World, pool, arrived}
use merch.Postgres.Triples.{Ends, Ends-wrapped}
use merch.Postgres.Pool.{TablesAre, read-Ends}
use merch.Postgres.Rows.{collect_rows}
use merch.Purchases.Model.{ItemCountRow, ItemCount, row_to_item_count}
use merch.Purchases.Getter.{
  select_item_counts, find_item_counts_by_user_id, get_item_counts_by_user_id,
}
use merch.Purchases.Counting.{
  counted, bought, stocked, IsGrouped, counts_of, counts_of-IsGrouped, counted-counts_of,
}

abbrev pub item_count_of : ItemCountRow → ItemCount
item_count_of r = record {
  user_id = r.user_id;
  item_id = r.item_id;
  count = r.count;
  item_name = r.item_name;
}

collect_rows-row_to_item_count :
    (rows : List ItemCountRow) → collect_rows row_to_item_count rows ≡ ok (map item_count_of rows)
unfolding collect_rows row_to_item_count
collect_rows-row_to_item_count [] = refl
collect_rows-row_to_item_count (r ∷ rows) = rw (collect_rows-row_to_item_count rows) refl

-- The counts of a user's purchases: one entry for each group, and for each item as many as the user
-- bought of it, for each time that the table of items has the item.
pub record IsInventory (id : Uuid) (t : Tables) (ics : List ItemCount) : Type 0 where
  pub rows : List ItemCountRow
  pub shown : ics ≡ map item_count_of rows
  pub grouped : IsGrouped rows
  pub total :
      (i : Uuid)
      → counted i rows ≡ bought i (filter (λ p. p.user_id == id) t.purchases) * stocked i t.items

-- GetItemCountsByUserID on the pool does not panic and leaves the tables as the other clients made
-- them; if it returns, no two of its entries have the same user, item and item name, and the counts
-- of each item add up to the number of the user's purchases of it, times the number of rows that
-- the item has in the table of items.
pub get_item_counts_by_user_id-Ends :
    (collate : String → String → Bool) (env : Env) (id : Uuid) (w : World)
    → Ends
        (λ ics v. (v.tables ≡ arrived env w) × IsInventory id (arrived env w) ics)
        (TablesAre (arrived env w))
        (get_item_counts_by_user_id collate env pool id w)
unfolding get_item_counts_by_user_id find_item_counts_by_user_id select_item_counts
get_item_counts_by_user_id-Ends collate env id w =
    let t = arrived env w in
    let ps = filter (λ p. p.user_id == id) t.purchases in
    let rows = counts_of collate t.items ps in
    let inventory : IsInventory id t (map item_count_of rows) = record {
      rows = rows;
      shown = refl;
      grouped = counts_of-IsGrouped collate t.items ps;
      total = λ i. counted-counts_of collate i t.items ps;
    } in
    Ends-wrapped "purchase.Getter" (λ ics v. (v.tables ≡ t) × IsInventory id t ics) (TablesAre t)
      (find_item_counts_by_user_id collate env pool id) w
      (read-Ends env (select_item_counts collate id) (collect_rows row_to_item_count) w rows
        (IsInventory id t) refl (rw (collect_rows-row_to_item_count rows) inventory))
