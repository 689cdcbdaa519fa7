-- ===== src/Ledger/Invariant.antt =====
-- The invariant of the tables.
use merch.Base.{◌≡◌, ◌^◌, ◌-◌, none, some, List, [], ◌∷◌, arith, subst}
use merch.Base.Int.{ℤ, pos, ◌+ℤ◌, ◌-ℤ◌, ◌≤ℤ◌, int_laws}
use merch.Go.Words.{wrap64, wrap64_lem}
use merch.Base.Lists.{All}
use merch.Postgres.Schema.{Uuid, UserRow, ItemRow, Tables}
use merch.Users.Balance.{set_balance}
use merch.Ledger.Accounts.{
  find, find_username, balance_of, granted, sent, received, spent, find-set_balance,
  find_username-set_balance-none,
}

-- PRIMARY KEY (id), and the unique index on the usernames
abbrev pub HasDistinctKeys : List UserRow → Type 0
HasDistinctKeys [] = Unit
HasDistinctKeys (u ∷ us) =
    (find u.id us ≡ none) × (find_username u.username us ≡ none) × HasDistinctKeys us

-- from 0 to the greatest `integer`
abbrev pub IsAmount : ℤ → Type 0
IsAmount z = (pos 0 ≤ℤ z) × (z ≤ℤ pos (2 ^ 31 - 1))

-- What a user has, sent and spent is what the user got at registration and received since.
abbrev pub IsSettled : Uuid → Tables → Type 0
IsSettled id t =
    balance_of id t.users +ℤ sent id t.transfers +ℤ spent id t.purchases
    ≡ granted id t.users +ℤ received id t.transfers

pub record IsConsistent (t : Tables) : Type 0 where
  pub keys : HasDistinctKeys t.users
  pub balances : (id : Uuid) → IsAmount (balance_of id t.users)
  pub prices : All (λ (i : ItemRow). IsAmount i.price) t.items
  pub settled : (id : Uuid) → IsSettled id t

pub set_balance-HasDistinctKeys :
    (id : Uuid) (b : ℤ) (us : List UserRow)
    → HasDistinctKeys us
    → HasDistinctKeys (set_balance id b us)
unfolding set_balance
set_balance-HasDistinctKeys id b [] h = tt
set_balance-HasDistinctKeys id b (u ∷ us) h = ground (
  arith,
  set_balance-HasDistinctKeys id b us h.2,
  find-set_balance u.id id b us,
  find_username-set_balance-none u.username id b us h.1,
)

-- Within the columns' ranges the sums of the program do not wrap around.
pub wrap64-sub : (b x : ℤ) → IsAmount b → IsAmount x → wrap64 (b -ℤ x) ≡ b -ℤ x
wrap64-sub b x hb hx = wrap64_lem (b -ℤ x) (omega int_laws, omega int_laws)

pub wrap64-add : (b x : ℤ) → IsAmount b → IsAmount x → wrap64 (b +ℤ x) ≡ b +ℤ x
wrap64-add b x hb hx = wrap64_lem (b +ℤ x) (omega int_laws, omega int_laws)

pub covered_of : (b x : ℤ) → IsAmount (b -ℤ x) → x ≤ℤ b
covered_of b x h = omega int_laws

-- A row that is found has its balance in range.
pub balance_of-find :
    (id : Uuid) (us : List UserRow) (u : UserRow)
    → find id us ≡ some u
    → balance_of id us ≡ u.balance
balance_of-find id us u e = rw e

pub balance-IsAmount :
    (t : Tables) (id : Uuid) (u : UserRow)
    → IsConsistent t
    → find id t.users ≡ some u
    → IsAmount u.balance
balance-IsAmount t id u c e = subst IsAmount (balance_of-find id t.users u e) (c.balances id)
