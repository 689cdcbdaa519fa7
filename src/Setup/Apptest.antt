-- ===== src/Setup/Apptest.antt =====
-- cmd/setup/apptest.go, and `WriteFileJSON` of cmd/setup/usertest.go
pub mod Outcome
use merch.Base.{ℕ, String, List}
use merch.Base.Int.{ℤ}
use merch.Go.Errors.{Result}
use merch.Postgres.Schema.{Uuid, Time, Bytes}
use merch.Postgres.Session.{Env, World, Action}
use merch.App.Files.{FileSystem, FileAction, lift, wrapped, ◌>>=◌, ◌>>◌}
use merch.App.Keys.{KeyFormats, read_file_ed25519_private_key}
use merch.Users.Argon2.{Cryptography}
use merch.Users.Creator.{RowOrder}
use merch.Auth.Claims.{Libraries}
use merch.Setup.Users.{SetupUser, generate_users}
use merch.Setup.Tokens.{generate_auth_tokens}

pub record SetupApptestParams : Type 0 where
  pub postgres_url : Bytes
  pub jwt_signature_key_file : String
  pub user_file : String
  pub user_count : ℤ
  pub auth_token_file : String

-- json.Encoder.Encode, which encodes a value before it writes
pub record JsonEncoding : Type 0 where
  pub encode_users : List SetupUser → Result Bytes
  pub encode_tokens : List Bytes → Result Bytes

module _ {S : Type 0} (fs : FileSystem S) where
  -- An error of the deferred Close is only logged.
  unfoldable pub write_file_json : String → Result Bytes → FileAction S Unit
  write_file_json name encoded =
      wrapped "WriteFileJSON" (do fs.create name; content ← lift encoded; fs.append name content)

  -- The command works on the database and on files.
  abbrev pub in_database : {A : Type 0} → Action A → FileAction (World × S) A
  in_database m x = let (r, w) = m x.0 in (r, (w, x.1))

  abbrev pub in_files : {A : Type 0} → FileAction S A → FileAction (World × S) A
  in_files m x = let (r, s) = m x.1 in (r, (x.0, s))

  module _ (kf : KeyFormats) (js : JsonEncoding) (c : Cryptography) (lib : Libraries) (env : Env)
      (order : RowOrder) (uuid_new : ℕ → Uuid) (time_now : ℕ → Time) where
    -- `connect` is app.NewPostgresPool.
    unfoldable pub setup_apptest :
        (Bytes → Result Unit) → SetupApptestParams → FileAction (World × S) Unit
    setup_apptest connect params = do
      lift (connect params.postgres_url)
      key ← (λ x. (read_file_ed25519_private_key fs kf params.jwt_signature_key_file x.1, x))
      users ← in_database (generate_users c env order params.user_count)
      in_files (fs.mkdir_all (fs.dir params.user_file))
      in_files (write_file_json params.user_file (js.encode_users users))
      auth_tokens ← lift (generate_auth_tokens lib key uuid_new time_now users)
      in_files (fs.mkdir_all (fs.dir params.auth_token_file))
      in_files (write_file_json params.auth_token_file (js.encode_tokens auth_tokens))
