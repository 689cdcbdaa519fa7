-- ===== src/Coins.antt =====
-- internal/coin/getter.go
pub mod Lookup
use merch.Base.Int.{ℤ}
use merch.Postgres.Schema.{Uuid}
use merch.Postgres.Session.{Env, Action, Executor, pure, wrapped, ◌>>=◌}
use merch.Users.Getter.{get_user}

module _ (env : Env) where
  -- Getter.GetBalance
  unfoldable pub get_balance : Executor → Uuid → Action ℤ
  get_balance db user_id = wrapped "coin.Getter" (do u ← get_user env db user_id; pure u.balance)
