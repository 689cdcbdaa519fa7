-- ===== src/Setup/Command.antt =====
-- cmd/setup/app.go and cmd/setup/main.go: the set-ups, and their order in `main`
use merch.Base.{ℕ, String, Bool, ◌||◌, if◌then◌else◌}
use merch.Go.Errors.{other, Result, ok, err}
use merch.Postgres.Schema.{Uuid, Time, Bytes}
use merch.Postgres.Session.{Env, World}
use merch.App.Files.{FileSystem, FileAction, lift, ◌>>=◌, ◌>>◌}
use merch.App.Keys.{KeyFormats}
use merch.App.JwtSetup.{setup_jwt}
use merch.Users.Argon2.{Cryptography}
use merch.Users.Creator.{RowOrder}
use merch.Auth.Claims.{Libraries}
use merch.Server.Process.{exit_code}
use merch.Setup.Apptest.{JsonEncoding, in_files, setup_apptest}
use merch.Setup.Configuration.{SetupAppParams, SetupConfig, setup_config}

-- `migrate` is app.SetupPostgres; what it does to the tables is not followed.
module _ {S : Type 0} (fs : FileSystem S) (kf : KeyFormats) (migrate : Bytes → Result Unit)
    (generated : Result (Bytes × Bytes)) where
  unfoldable pub setup_app : SetupAppParams → FileAction S Unit
  setup_app params = do
    lift (migrate params.postgres_url)
    setup_jwt fs kf generated params.jwt_verification_key_file params.jwt_signature_key_file

  module _ (js : JsonEncoding) (c : Cryptography) (lib : Libraries) (env : Env) (order : RowOrder)
      (uuid_new : ℕ → Uuid) (time_now : ℕ → Time) (connect : Bytes → Result Unit) where
    -- the two flags, and the test of doneSetups
    unfoldable pub run_setups : Bool → Bool → SetupConfig → FileAction (World × S) Unit
    run_setups app_flag apptest_flag config = do
      if app_flag then in_files fs (setup_app config.app) else lift (ok tt)
      if apptest_flag
          then setup_apptest fs kf js c lib env order uuid_new time_now connect config.apptest
          else lift (ok tt)
      if app_flag || apptest_flag
          then lift (ok tt)
          else lift (err (other "no setups were specified"))

    unfoldable pub setup_main :
        (Bytes → String) → (String → Bytes) → Bool → Bool → World × S → ℕ × (World × S)
    setup_main path getenv app_flag apptest_flag x =
        let (r, y) = (lift (setup_config path getenv) >>= run_setups app_flag apptest_flag) x in
        (exit_code r, y)
