-- ===== src/Tests/Listings.antt =====
-- What the getters list, after two transfers and three purchases.
use merch.Base.{◌≡◌, false, none, [], ◌∷◌}
use merch.Base.Int.{pos}
use merch.Postgres.Schema.{TransferRow, PurchaseRow, Tables}
use merch.Postgres.Session.{World, pool}
use merch.Postgres.Triples.{Ends}
use merch.Postgres.Pool.{TablesAre}
use merch.Transfers.Getter.{get_transfers_by_user_id}
use merch.Transfers.Listing.{IsHistory, get_transfers_by_user_id-Ends}
use merch.Purchases.Getter.{get_item_counts_by_user_id}
use merch.Purchases.Listing.{IsInventory, get_item_counts_by_user_id-Ends}
use merch.Tests.Data.{two_users, two_users-IsConsistent, quiet}

abbrev gift : TransferRow
gift = record { id = 31; created_at = 5; dst_user_id = 2; src_user_id = 1; amount = pos 40 }

abbrev thanks : TransferRow
thanks = record { id = 30; created_at = 7; dst_user_id = 1; src_user_id = 2; amount = pos 10 }

abbrev bought_cup : PurchaseRow
bought_cup = record { id = 41; created_at = 6; user_id = 1; item_id = 5; amount = pos 20 }

abbrev later : Tables
later = record two_users {
  transfers = thanks ∷ gift ∷ [];
  purchases =
      record bought_cup { id = 43 } ∷ record bought_cup { id = 42; user_id = 2 } ∷ bought_cup ∷ [];
}

abbrev then_world : World
then_world = record { tables = later; pending = none; tick = 9 }

get_transfers_by_user_id-Ends_example :
    Ends
      (λ ts v. (v.tables ≡ later) × IsHistory 1 later ts)
      (TablesAre later)
      (get_transfers_by_user_id quiet pool 1 then_world)
get_transfers_by_user_id-Ends_example =
    get_transfers_by_user_id-Ends quiet 1 then_world two_users-IsConsistent.keys

get_item_counts_by_user_id-Ends_example :
    Ends
      (λ ics v. (v.tables ≡ later) × IsInventory 1 later ics)
      (TablesAre later)
      (get_item_counts_by_user_id (λ a b. false) quiet pool 1 then_world)
get_item_counts_by_user_id-Ends_example =
    get_item_counts_by_user_id-Ends (λ a b. false) quiet 1 then_world
