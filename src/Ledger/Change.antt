-- ===== src/Ledger/Change.antt =====
-- The specification of the program's effect on the tables: a registration, a transfer or a
-- purchase, as a step relation.
use merch.Base.{◌≡◌, ◌≢◌, none, some, ◌∷◌}
use merch.Base.Int.{◌+ℤ◌, ◌-ℤ◌, ◌≤ℤ◌}
use merch.Postgres.Schema.{UserRow, TransferRow, PurchaseRow, Tables}
use merch.Users.Creator.{default_balance}
use merch.Users.Balance.{set_balance}
use merch.Ledger.Accounts.{find, find_username}
use merch.Ledger.Invariant.{IsAmount}

abbrev pub registered : UserRow → Tables → Tables
registered u t = record t { users = u ∷ t.users }

-- `x.amount` coins go from `s` to `d`.
abbrev pub transferred : UserRow → UserRow → TransferRow → Tables → Tables
transferred s d x t = record t {
  users =
      set_balance x.dst_user_id (d.balance +ℤ x.amount)
        (set_balance x.src_user_id (s.balance -ℤ x.amount) t.users);
  transfers = x ∷ t.transfers;
}

-- `u` pays `x.amount` coins.
abbrev pub purchased : UserRow → PurchaseRow → Tables → Tables
purchased u x t = record t {
  users = set_balance x.user_id (u.balance -ℤ x.amount) t.users;
  purchases = x ∷ t.purchases;
}

pub data Change (t t' : Tables) : Type 0 where
  registration :
      (u : UserRow)
      → u.balance ≡ default_balance
      → find u.id t.users ≡ none
      → find_username u.username t.users ≡ none
      → t' ≡ registered u t
      → Change t t'
  transfer :
      (s d : UserRow) (x : TransferRow)
      → x.src_user_id ≢ x.dst_user_id
      → find x.src_user_id t.users ≡ some s
      → find x.dst_user_id t.users ≡ some d
      → IsAmount x.amount
      → x.amount ≤ℤ s.balance
      → IsAmount (d.balance +ℤ x.amount)
      → t' ≡ transferred s d x t
      → Change t t'
  purchase :
      (u : UserRow) (x : PurchaseRow)
      → find x.user_id t.users ≡ some u
      → IsAmount x.amount
      → x.amount ≤ℤ u.balance
      → t' ≡ purchased u x t
      → Change t t'
