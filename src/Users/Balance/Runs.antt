-- ===== src/Users/Balance/Runs.antt =====
-- A run of `updateUserBalance` within a transaction.
use merch.Base.{◌≡◌, some, List, [], ◌∷◌, arith}
use merch.Base.Int.{ℤ}
use merch.Postgres.Schema.{Uuid, UserRow, Tables, in_integer, ge_0}
use merch.Postgres.Session.{Env, World, Defaults, done, tx}
use merch.Postgres.Triples.{Ends}
use merch.Postgres.Transactions.{Yields, InTx, Kept, query_then-Ends}
use merch.Users.Model.{User}
use merch.Users.Getter.{exactly_one_user}
use merch.Users.Balance.{set_balance, update_balance, update_user_balance}
use merch.Ledger.Invariant.{IsAmount}

abbrev pub IsUpdated : Uuid → ℤ → Tables → User → Tables → Type 0
IsUpdated id b t _ t' = (t' ≡ record t { users = set_balance id b t.users }) × IsAmount b

update_balance-Yields :
    (id : Uuid) (b : ℤ) (d : Defaults) (t : Tables) (rows : List UserRow) (t' : Tables)
    → update_balance id b d t ≡ done rows t'
    → Yields (λ u. IsUpdated id b t u t') (exactly_one_user rows)
unfolding update_balance exactly_one_user in_integer ge_0
update_balance-Yields id b d t [] t' e = tt
update_balance-Yields id b d t (u ∷ []) t' e = ground arith
update_balance-Yields id b d t (u ∷ v ∷ us) t' e = tt

-- It returns only after it has written the balance, which fits the column.
pub update_user_balance-Ends :
    (env : Env) (id : Uuid) (b : ℤ) (w : World) (t : Tables)
    → w.pending ≡ some t
    → Ends (InTx w (IsUpdated id b t)) (Kept w) (update_user_balance env tx id b w)
unfolding update_user_balance
update_user_balance-Ends env id b w t e =
    query_then-Ends env (update_balance id b) exactly_one_user w t (IsUpdated id b t) e
      (update_balance-Yields id b _ t)
