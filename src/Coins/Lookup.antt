-- ===== src/Coins/Lookup.antt =====
-- What the getter of internal/coin returns.
use merch.Base.{◌≡◌, refl, some, List}
use merch.Base.Int.{ℤ}
use merch.Postgres.Schema.{Uuid, UserRow}
use merch.Postgres.Session.{Env, World, pool, arrived, pure, ◌>>=◌}
use merch.Postgres.Triples.{Ends, Ends-then, Ends-wrapped}
use merch.Postgres.Pool.{TablesAre}
use merch.Users.Model.{User}
use merch.Users.Getter.{get_user}
use merch.Users.Lookup.{IsWithId, get_user-Ends}
use merch.Ledger.Accounts.{find}
use merch.Coins.{get_balance}

-- the balance of the user with an id
abbrev pub IsBalance : Uuid → List UserRow → ℤ → Type 0
IsBalance id us b = (r : UserRow) × (find id us ≡ some r) × (b ≡ r.balance)

-- GetBalance on the pool does not panic and leaves the tables as the other clients made them; if it
-- returns, it returns the balance of the row with that id in them.
pub get_balance-Ends :
    (env : Env) (id : Uuid) (w : World)
    → Ends
        (λ b v. (v.tables ≡ arrived env w) × IsBalance id (arrived env w).users b)
        (TablesAre (arrived env w))
        (get_balance env pool id w)
unfolding get_balance
get_balance-Ends env id w =
    let t = arrived env w in
    let balance = λ (u : User). pure u.balance in
    Ends-wrapped "coin.Getter" (λ b v. (v.tables ≡ t) × IsBalance id t.users b) (TablesAre t)
      (get_user env pool id >>= balance) w
      (Ends-then (λ u v. (v.tables ≡ t) × IsWithId id t.users u)
        (λ b v. (v.tables ≡ t) × IsBalance id t.users b) (TablesAre t) (TablesAre t)
        (get_user env pool id) balance w (get_user-Ends env id w) (λ _ _ h. h)
        (λ u v (e, h). (e, (h.row, h.found, rw h.user refl))))
