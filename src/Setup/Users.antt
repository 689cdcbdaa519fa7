-- ===== src/Setup/Users.antt =====
-- cmd/setup/usertest.go: `GenerateUsers`
pub mod Rows
pub mod Generation
use Prim.Native.String.{◌∷◌ as char_and}
use merch.Base.{ℕ, zero, suc, ◌+◌, String, List, [], ◌∷◌, map}
use merch.Base.Int.{ℤ, pos, negsuc}
use merch.Go.Errors.{Result, ok, err, panic}
use merch.Go.Strings.{codes}
use merch.Go.Decimal.{itoa}
use merch.Go.Texts.{text}
use merch.Postgres.Schema.{Uuid, Bytes}
use merch.Postgres.Session.{Env, Action, lift, wrapped, pure, ◌>>=◌}
use merch.Users.Model.{User}
use merch.Users.Argon2.{Cryptography, hash, default_argon2_id_params}
use merch.Users.Creator.{DataCreatorCreateUserParams, RowOrder, default_balance, create_users_data}

-- usertest.DefaultPassword
abbrev pub default_password : Bytes
default_password = codes "password"

-- `User` of cmd/setup
pub record SetupUser : Type 0 where
  pub id : Uuid
  pub username : String
  pub password : Bytes
  pub balance : ℤ

-- fmt.Sprintf("u%d", i)
abbrev pub nth_username : ℕ → String
nth_username i = char_and "u" (text (itoa i))

-- the loop over createUserParamsUsers, from `i` on
abbrev pub nth_params : Bytes → ℕ → DataCreatorCreateUserParams
nth_params password_hash i = record {
  username = nth_username i;
  password_hash = password_hash;
  balance = default_balance;
}

unfoldable pub create_user_params : Bytes → ℕ → ℕ → List DataCreatorCreateUserParams
create_user_params password_hash i zero = []
create_user_params password_hash i (suc n) =
    nth_params password_hash i ∷ create_user_params password_hash (i + 1) n

-- make([]*user.DataCreatorCreateUserParams, count) panics if the count is negative.
unfoldable pub make_params : Bytes → ℤ → Result (List DataCreatorCreateUserParams)
make_params password_hash (pos n) = ok (create_user_params password_hash 0 n)
make_params password_hash (negsuc n) = panic

abbrev pub setup_user : User → SetupUser
setup_user u = record {
  id = u.id;
  username = u.username;
  password = default_password;
  balance = u.balance;
}

unfoldable pub generate_users : Cryptography → Env → RowOrder → ℤ → Action (List SetupUser)
generate_users c env order count = wrapped "GenerateUsers" (do
  password_hash ← (λ w. lift (hash c default_argon2_id_params w.tick default_password) w)
  params_users ← lift (make_params password_hash count)
  users ← create_users_data env order params_users
  pure (map setup_user users))
