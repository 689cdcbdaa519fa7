-- ===== src/Server/Process/Startup.antt =====
-- The start of the server after a set-up of the keys.
use merch.Base.{ℕ, ◌^◌, ◌<◌, String, ◌≡◌, ◌⊎◌, refl, ap, ◌∙◌, sym, false, ◌∷◌, ◌==◌, arith}
use merch.Base.Int.{pos}
use merch.Go.Errors.{Result, ok, wrap_result}
use merch.Go.Decimal.{itoa, itoa_starts}
use merch.Go.Atoi.{atoi, atoi-itoa}
use merch.Postgres.Schema.{Bytes}
use merch.App.Files.{FileSystem}
use merch.App.Keys.{KeyFormats}
use merch.App.JwtSetup.{setup_jwt}
use merch.App.JwtSetup.KeyPair.{setup_jwt-reads}
use merch.Server.Process.{
  host_or_default, parse_port, server_config, join_host_port, unless_closed, run, exit_code,
  server_main,
}

-- The environment has all that is needed, and a port.
pub record IsReady (getenv : String → Bytes) (port : ℕ) (verification_file signature_file : Bytes)
    : Type 0 where
  pub port_set : getenv "APP_PORT" ≡ itoa port
  pub port_positive : 0 < port
  pub port_small : port < 2 ^ 63
  pub url_head : ℕ
  pub url_rest : Bytes
  pub url_set : getenv "APP_POSTGRES_URL" ≡ url_head ∷ url_rest
  pub verification_set : getenv "APP_JWT_VERIFICATION_KEY_FILE" ≡ verification_file
  pub signature_set : getenv "APP_JWT_SIGNATURE_KEY_FILE" ≡ signature_file

parse_port-itoa : (port : ℕ) → port < 2 ^ 63 → parse_port (itoa port) ≡ ok (pos port)
unfolding wrap_result
parse_port-itoa port small =
    let (c, s, e, d) = itoa_starts port in
    ap parse_port e ∙ ap (wrap_result "APP_PORT env") (ap atoi (sym e) ∙ atoi-itoa port small)

server_config_ready :
    (getenv : String → Bytes) (port c d : ℕ) (v w : Bytes)
    → (r : IsReady getenv port (c ∷ v) (d ∷ w))
    → server_config getenv
      ≡ ok (record {
        host = host_or_default (getenv "APP_HOST");
        port = pos port;
        postgres_url = r.url_head ∷ r.url_rest;
        jwt_verification_key_file = c ∷ v;
        jwt_signature_key_file = d ∷ w;
      })
unfolding server_config
server_config_ready getenv port c d v w r =
    let positive : (port == 0) ≡ false = (let h = r.port_positive in ground arith) in
    rw
      (
        server_config,
        r.port_set,
        parse_port-itoa port r.port_small,
        r.url_set,
        r.verification_set,
        r.signature_set,
        positive,
      )
      refl

module _ {S : Type 0} (fs : FileSystem S) (kf : KeyFormats) (path : Bytes → String) where
  -- After a SetupJWT that returned without an error, where a key file was missing, a start of the
  -- server with the same two key files, with a positive port below 2^63 in the environment and a
  -- database URL with which the pool is made, listens at that port, on the host of the environment
  -- or 127.0.0.1, with the two keys that were generated, and exits with the code of how listening
  -- ended.
  pub server_main-setup_jwt :
      (getenv : String → Bytes) (port c d : ℕ) (v w key priv : Bytes)
      (connect : Bytes → Result Unit) (listen : Bytes → Bytes → Bytes → Result Unit) (s s' : S)
      → (r : IsReady getenv port (c ∷ v) (d ∷ w)) → connect (r.url_head ∷ r.url_rest) ≡ ok tt
      → fs.same_file (path (d ∷ w)) (path (c ∷ v)) ≡ false
      → ¬ (fs.stat (path (c ∷ v)) s ≡ ok tt) ⊎ ¬ (fs.stat (path (d ∷ w)) s ≡ ok tt)
      → setup_jwt fs kf (ok (key, priv)) (path (c ∷ v)) (path (d ∷ w)) s ≡ (ok tt, s')
      → server_main fs kf path getenv connect listen s'
        ≡ exit_code (
            unless_closed
              (listen (join_host_port (host_or_default (getenv "APP_HOST")) (itoa port)) key priv))
  unfolding server_main run
  server_main-setup_jwt getenv port c d v w key priv connect listen s s' ready connects apart
        missing e =
      let (reads, reads') =
        setup_jwt-reads fs kf (path (c ∷ v)) (path (d ∷ w)) apart key priv s s' missing e in
      rw (server_main, server_config_ready getenv port c d v w ready, run, connects, reads, reads')
        refl
