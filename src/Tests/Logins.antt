-- ===== src/Tests/Logins.antt =====
-- The theorems on users and logins, at concrete tables.
use merch.Base.{◌≡◌, refl, [], ◌∷◌}
use merch.Go.Errors.{ok}
use merch.Postgres.Splitting.{Splits, Anything}
use merch.Ledger.Accounts.{find_username}
use merch.Auth.Password.{authenticate_password}
use merch.Auth.Login.{IsLogin, authenticate_password-IsLogin}
use merch.Auth.Liveness.{authenticate_password_overtaken}
use merch.Tests.Data.{quiet, busy, start, carol, plain_hasher, with_carol-IsConsistent}

authenticate_password-IsLogin_example :
    Splits
      (IsLogin quiet plain_hasher "bob" (2 ∷ []) start)
      Anything
      (authenticate_password quiet plain_hasher "bob" (2 ∷ []) start)
authenticate_password-IsLogin_example =
    authenticate_password-IsLogin quiet plain_hasher "bob" (2 ∷ []) start

-- The password is 9; carol's is 3.
authenticate_password_overtaken_example :
    (authenticate_password busy plain_hasher "carol" (9 ∷ []) start).0 ≡ ok (record { user_id = 3 })
unfolding find_username
authenticate_password_overtaken_example =
    authenticate_password_overtaken busy plain_hasher (λ n. refl) "carol" (9 ∷ []) start (9 ∷ [])
      carol refl refl refl refl with_carol-IsConsistent.keys refl
