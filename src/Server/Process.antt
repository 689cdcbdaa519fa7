-- ===== src/Server/Process.antt =====
-- cmd/server/main.go: `main` and `run`, up to `ListenAndServe`. An environment variable that is not
-- set reads as the empty text.
pub mod Startup
use merch.Base.{ℕ, suc, String, Bool, true, false, ◌||◌, List, [], ◌∷◌, ◌++◌, ◌==◌, if◌then◌else◌}
use merch.Base.Int.{ℤ, pos, negsuc}
use merch.Base.Lists.{any}
use merch.Go.Errors.{other, wrap_result, server_closed, errors_is, Result, ok, err, panic}
use merch.Go.Results.{◌>>=◌, ◌>>◌}
use merch.Go.Strings.{codes}
use merch.Go.Decimal.{itoa}
use merch.Go.Atoi.{atoi}
use merch.Postgres.Schema.{Bytes}
use merch.App.Files.{FileSystem}
use merch.App.Keys.{KeyFormats, read_file_ed25519_public_key, read_file_ed25519_private_key}

pub record ServerConfig : Type 0 where
  pub host : Bytes
  pub port : ℤ
  pub postgres_url : Bytes
  pub jwt_verification_key_file : Bytes
  pub jwt_signature_key_file : Bytes

abbrev pub host_or_default : Bytes → Bytes
host_or_default [] = codes "127.0.0.1"
host_or_default (c ∷ s) = c ∷ s

abbrev pub parse_port : Bytes → Result ℤ
parse_port [] = ok (pos 0)
parse_port (c ∷ s) = wrap_result "APP_PORT env" (atoi (c ∷ s))

abbrev pub port_or_default : ℤ → ℤ
port_or_default (pos n) = if n == 0 then pos 8080 else pos n
port_or_default (negsuc n) = negsuc n

-- The message says which variable is empty.
abbrev pub required : String → Bytes → Result Bytes
required message [] = err (other message)
required message (c ∷ s) = ok (c ∷ s)

unfoldable pub server_config : (String → Bytes) → Result ServerConfig
server_config getenv = do
  port ← parse_port (getenv "APP_PORT")
  postgres_url ← required "APP_POSTGRES_URL env is empty" (getenv "APP_POSTGRES_URL")
  jwt_verification_key_file ←
      required "APP_JWT_VERIFICATION_KEY_FILE env is empty" (getenv "APP_JWT_VERIFICATION_KEY_FILE")
  jwt_signature_key_file ←
      required "APP_JWT_SIGNATURE_KEY_FILE env is empty" (getenv "APP_JWT_SIGNATURE_KEY_FILE")
  ok (record {
    host = host_or_default (getenv "APP_HOST");
    port = port_or_default port;
    postgres_url = postgres_url;
    jwt_verification_key_file = jwt_verification_key_file;
    jwt_signature_key_file = jwt_signature_key_file;
  })

-- net.JoinHostPort: a host with a colon in it stands in brackets.
abbrev pub join_host_port : Bytes → Bytes → Bytes
join_host_port host port =
    if any (λ c. c == 58) host then (91 ∷ host) ++ (93 ∷ 58 ∷ port) else host ++ (58 ∷ port)

abbrev pub itoa_ℤ : ℤ → Bytes
itoa_ℤ (pos n) = itoa n
itoa_ℤ (negsuc n) = 45 ∷ itoa (suc n)

-- err != nil && !errors.Is(err, http.ErrServerClosed)
abbrev pub unless_closed : Result Unit → Result Unit
unless_closed (ok x) = ok x
unless_closed (err e) = if errors_is e server_closed then ok tt else err e
unless_closed panic = panic

-- os.Exit; a panic ends the process with 2.
abbrev pub exit_code : Result Unit → ℕ
exit_code (ok x) = 0
exit_code (err e) = 1
exit_code panic = 2

module _ {S : Type 0} (fs : FileSystem S) (kf : KeyFormats) (path : Bytes → String) where
  -- `connect` is app.NewPostgresPool, `listen` is ListenAndServe at an address with the two keys.
  unfoldable pub run :
      (Bytes → Result Unit) → (Bytes → Bytes → Bytes → Result Unit) → ServerConfig → S → Result Unit
  run connect listen config s = do
    connect config.postgres_url
    jwt_verification_key ←
        read_file_ed25519_public_key fs kf (path config.jwt_verification_key_file) s
    jwt_signature_key ← read_file_ed25519_private_key fs kf (path config.jwt_signature_key_file) s
    unless_closed (
        listen (join_host_port config.host (itoa_ℤ config.port)) jwt_verification_key
          jwt_signature_key)

  unfoldable pub server_main :
      (String → Bytes) → (Bytes → Result Unit) → (Bytes → Bytes → Bytes → Result Unit) → S → ℕ
  server_main getenv connect listen s =
      exit_code (server_config getenv >>= λ config. run connect listen config s)
