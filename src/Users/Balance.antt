-- ===== src/Users/Balance.antt =====
-- `updateUserBalance`, which internal/transfer/transferer.go and internal/purchase/purchaser.go
-- each declare with the same text.
pub mod Runs
use merch.Base.{ℕ, List, [], ◌∷◌, ◌==◌, if◌then◌else◌, map}
use merch.Base.Int.{ℤ}
use merch.Base.Lists.{filter}
use merch.Go.Errors.{check_violation, numeric_value_out_of_range, pg_error}
use merch.Postgres.Schema.{Uuid, UserRow, in_integer, ge_0}
use merch.Postgres.Session.{Env, Action, Statement, done, refused, Executor, query, lift, ◌>>=◌}
use merch.Users.Model.{User}
use merch.Users.Getter.{exactly_one_user}

unfoldable pub set_balance : Uuid → ℤ → List UserRow → List UserRow
set_balance id balance [] = []
set_balance id balance (u ∷ us) =
    (if u.id == id then record u { balance = balance } else u) ∷ set_balance id balance us

-- UPDATE users SET balance = $2 WHERE id = $1 RETURNING …
-- The CHECK is applied to the rows that are updated, so to none if no row has the id.
unfoldable pub update_balance : Uuid → ℤ → Statement (List UserRow)
update_balance id balance d t =
    let users = set_balance id balance t.users in
    let rows = filter (λ u. u.id == id) users in
    if in_integer balance
    then elim rows [
      | [] ↦ done [] t
      | u ∷ us ↦
          if ge_0 balance
          then done (u ∷ us) (record t { users = users })
          else refused (pg_error check_violation "users_balance_ge_0")
    ]
    else refused (pg_error numeric_value_out_of_range "")

module _ (env : Env) where
  unfoldable pub update_user_balance : Executor → Uuid → ℤ → Action User
  update_user_balance db id balance = do
    rows ← query env db (update_balance id balance)
    lift (exactly_one_user rows)
