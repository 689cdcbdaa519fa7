-- ===== src/Setup/Configuration.antt =====
-- cmd/setup/main.go: the environment of `main`
use merch.Base.{String}
use merch.Go.Errors.{wrap_result, Result, ok}
use merch.Go.Results.{◌>>=◌}
use merch.Go.Atoi.{atoi}
use merch.Postgres.Schema.{Bytes}
use merch.Server.Process.{required}
use merch.Setup.Apptest.{SetupApptestParams}

pub record SetupAppParams : Type 0 where
  pub postgres_url : Bytes
  pub jwt_verification_key_file : String
  pub jwt_signature_key_file : String

-- the parameters of both set-ups, from the environment
pub record SetupConfig : Type 0 where
  pub app : SetupAppParams
  pub apptest : SetupApptestParams

-- `path` is a variable's value as a path.
module _ (path : Bytes → String) where
  unfoldable pub setup_config : (String → Bytes) → Result SetupConfig
  setup_config getenv = do
    postgres_url ← required "APP_POSTGRES_URL env is empty" (getenv "APP_POSTGRES_URL")
    jwt_verification_key_file ←
        required "APP_JWT_VERIFICATION_KEY_FILE env is empty"
          (getenv "APP_JWT_VERIFICATION_KEY_FILE")
    jwt_signature_key_file ←
        required "APP_JWT_SIGNATURE_KEY_FILE env is empty" (getenv "APP_JWT_SIGNATURE_KEY_FILE")
    user_file ← required "APPTEST_USER_FILE env is empty" (getenv "APPTEST_USER_FILE")
    user_count_env ← required "APPTEST_USER_COUNT env is empty" (getenv "APPTEST_USER_COUNT")
    user_count ← wrap_result "APPTEST_USER_COUNT env" (atoi user_count_env)
    auth_token_file ←
        required "APPTEST_AUTH_TOKEN_FILE env is empty" (getenv "APPTEST_AUTH_TOKEN_FILE")
    ok (record {
      app = record {
        postgres_url = postgres_url;
        jwt_verification_key_file = path jwt_verification_key_file;
        jwt_signature_key_file = path jwt_signature_key_file;
      };
      apptest = record {
        postgres_url = postgres_url;
        jwt_signature_key_file = path jwt_signature_key_file;
        user_file = path user_file;
        user_count = user_count;
        auth_token_file = path auth_token_file;
      };
    })
