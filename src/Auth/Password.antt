-- ===== src/Auth/Password.antt =====
-- internal/auth/passwordauthenticator.go
use merch.Base.{String, if◌then◌else◌}
use merch.Go.Errors.{
  sentinel, user_exist, user_not_exist, password_not_match, invalid_username_or_password, Result,
  ok, err, panic, errors_is,
}
use merch.Postgres.Schema.{Uuid, Bytes}
use merch.Postgres.Session.{Env, Action, pool, pure, fail, lift, wrapped, case_of, ◌>>=◌}
use merch.Users.Model.{User}
use merch.Users.Hashing.{PasswordHasher}
use merch.Users.Getter.{get_user_by_username}
use merch.Users.Creator.{create_user}

-- authenticated data
pub record Data : Type 0 where
  pub user_id : Uuid

abbrev pub data_of : User → Data
data_of u = record { user_id = u.id }

-- the error of `Verify`
unfoldable pub not_match_as_invalid : Result Unit → Result Unit
not_match_as_invalid (ok x) = ok x
not_match_as_invalid (err e) =
    if errors_is e password_not_match then err (sentinel invalid_username_or_password) else err e
not_match_as_invalid panic = panic

module _ (env : Env) (ph : PasswordHasher) where
  -- case err == nil
  unfoldable pub check_password : Bytes → User → Action Data
  unfolding not_match_as_invalid
  check_password password u = do
    x ← lift (not_match_as_invalid (ph.verify password u.password_hash))
    pure (data_of u)

  -- When another caller has created the username in the meantime, that user is taken.
  unfoldable pub create_or_get : String → Bytes → Action User
  create_or_get username password =
      case_of (create_user env ph pool username password) pure
        (λ e. if errors_is e user_exist then get_user_by_username env pool username else fail e)

  -- case errors.Is(err, user.ErrNotExist)
  unfoldable pub register : String → Bytes → Action Data
  register username password = do u ← create_or_get username password; pure (data_of u)

  -- AuthenticatePassword
  unfoldable pub authenticate_password : String → Bytes → Action Data
  authenticate_password username password = wrapped "auth.PasswordAuthenticator" (
      case_of (get_user_by_username env pool username) (check_password password)
        (λ e. if errors_is e user_not_exist then register username password else fail e))
