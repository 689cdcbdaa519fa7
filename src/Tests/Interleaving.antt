-- ===== src/Tests/Interleaving.antt =====
-- Alice sends bob coins while bob begins to buy a cup and carol registers.
use merch.Base.{ℕ, ◌≢◌, refl, List, [], ◌∷◌, arith}
use merch.Base.Int.{pos, ◌+ℤ◌, ◌-ℤ◌}
use merch.Base.Lists.{filter}
use merch.Go.Words.{wrap64}
use merch.Postgres.Schema.{in_integer, ge_0, TransferRow}
use merch.Postgres.Session.{Defaults}
use merch.Users.Balance.{set_balance, update_balance}
use merch.Postgres.Rows.{collect_rows}
use merch.Users.Model.{row_to_user}
use merch.Items.{Item}
use merch.Transfers.Transferer.{insert_transfer, user_at, users_map, check_ids, users_by_ids, deref}
use merch.Ledger.Accounts.{find, find_username}
use merch.Interleaving.{
  Job, sending, buying, selected_ids, plan, Write, transfer_row, user_balance, applied, begin, lock,
  compute, insert_sending, update, System, pick, register, Reach, start, later,
}
use merch.Interleaving.Serial.{Does, IsSound, Changes, Reach-IsSound, Reach-Changes, Reach-commit}
use merch.Tests.Data.{alice, bob, carol, two_users, two_users-IsConsistent}

abbrev gift : Job
gift = sending 2 1 (pos 300)

abbrev cup_item : Item
cup_item = record { id = 5; name = "cup"; price = pos 20 }

abbrev drink : Job
drink = buying cup_item 2

abbrev values : Defaults
values = record { ids = λ k. 70; created_at = 7 }

abbrev gift_row : TransferRow
gift_row = record { id = 70; created_at = 7; dst_user_id = 2; src_user_id = 1; amount = pos 300 }

one_two : ◌≢◌ {A = ℕ} 1 2
one_two e = omega arith

both_begin : (s : System) × Reach two_users s
both_begin =
    (_, later (later start (pick 0 (begin {j = gift} one_two))) (pick 1 (begin {j = drink} tt)))

all_locked : (s : System) × Reach two_users s
unfolding find find_username selected_ids both_begin
all_locked = (
  _,
  later
      (later (later both_begin.1 (pick 0 (lock alice refl refl refl)))
        (register carol refl refl refl))
      (pick 0 (lock bob refl refl refl)),
)

all_written : (s : System) × Reach two_users s
unfolding all_locked both_begin plan users_by_ids user_at users_map check_ids deref wrap64
    insert_transfer in_integer ge_0 update_balance set_balance filter collect_rows row_to_user ◌-ℤ◌
    ◌+ℤ◌
all_written = (
  _,
  later
      (later
        (later
          (later all_locked.1 (
            pick 0 (
              compute {j = gift} {rows = bob ∷ alice ∷ []}
                {balances = (1, pos 700) ∷ (2, pos 1300) ∷ []} refl)))
          (pick 0 (insert_sending values {x = gift_row} refl)))
        (pick 0 (update values {x = record alice { balance = pos 700 }} refl)))
      (pick 0 (update values {x = record bob { balance = pos 1300 }} refl)),
)

Reach-IsSound_example : IsSound all_written.0
Reach-IsSound_example = Reach-IsSound two_users-IsConsistent all_written.1

Reach-Changes_example : Changes two_users all_written.0.db.tables
Reach-Changes_example = Reach-Changes two_users-IsConsistent all_written.1

abbrev gift_writes : List Write
gift_writes = user_balance 2 (pos 1300) ∷ user_balance 1 (pos 700) ∷ transfer_row gift_row ∷ []

Reach-commit_example :
    Does gift all_written.0.db.tables (applied gift_writes all_written.0.db.tables)
unfolding all_written all_locked both_begin
Reach-commit_example = Reach-commit two_users-IsConsistent all_written.1 0 gift gift_writes refl
