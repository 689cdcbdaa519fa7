-- ===== src/Ledger/Accounts.antt =====
-- A user's row and the sums of the history that concern it.
use merch.Base.{
  ◌≡◌, refl, Option, none, some, List, [], ◌∷◌, arith, ◌==◌, if◌then◌else◌, String, str_eq,
}
use merch.Base.Int.{ℤ, pos, ◌+ℤ◌}
use merch.Postgres.Schema.{Uuid, UserRow, TransferRow, PurchaseRow}
use merch.Users.Creator.{default_balance}
use merch.Users.Balance.{set_balance}

-- The row with an id; the primary key leaves at most one.
unfoldable pub find : Uuid → List UserRow → Option UserRow
find id [] = none
find id (u ∷ us) = if u.id == id then some u else find id us

unfoldable pub find_username : String → List UserRow → Option UserRow
find_username name [] = none
find_username name (u ∷ us) = if str_eq u.username name then some u else find_username name us

abbrev balance_in : Option UserRow → ℤ
balance_in none = pos 0
balance_in (some u) = u.balance

abbrev grant_in : Option UserRow → ℤ
grant_in none = pos 0
grant_in (some u) = default_balance

-- The coins that a user has, and those that the registration brought.
abbrev pub balance_of : Uuid → List UserRow → ℤ
balance_of id us = balance_in (find id us)

abbrev pub granted : Uuid → List UserRow → ℤ
granted id us = grant_in (find id us)

unfoldable pub sent : Uuid → List TransferRow → ℤ
sent id [] = pos 0
sent id (x ∷ xs) = (if x.src_user_id == id then x.amount else pos 0) +ℤ sent id xs

unfoldable pub received : Uuid → List TransferRow → ℤ
received id [] = pos 0
received id (x ∷ xs) = (if x.dst_user_id == id then x.amount else pos 0) +ℤ received id xs

unfoldable pub spent : Uuid → List PurchaseRow → ℤ
spent id [] = pos 0
spent id (x ∷ xs) = (if x.user_id == id then x.amount else pos 0) +ℤ spent id xs

abbrev with_balance : ℤ → Option UserRow → Option UserRow
with_balance b none = none
with_balance b (some u) = some (record u { balance = b })

pub find-set_balance :
    (j id : Uuid) (b : ℤ) (us : List UserRow)
    → find j (set_balance id b us) ≡ (if j == id then with_balance b (find j us) else find j us)
unfolding find set_balance
find-set_balance j id b [] = ground arith
find-set_balance j id b (u ∷ us) = ground (arith, find-set_balance j id b us)

pub find_username-set_balance-none :
    (name : String) (id : Uuid) (b : ℤ) (us : List UserRow)
    → find_username name us ≡ none
    → find_username name (set_balance id b us) ≡ none
unfolding find_username set_balance
find_username-set_balance-none name id b [] h = refl
find_username-set_balance-none name id b (u ∷ us) h =
    ground (arith, find_username-set_balance-none name id b us)

pub find-id : (id : Uuid) (us : List UserRow) (u : UserRow) → find id us ≡ some u → u.id ≡ id
unfolding find
find-id id [] u h = cc
find-id id (v ∷ us) u h = ground (arith, find-id id us u)
