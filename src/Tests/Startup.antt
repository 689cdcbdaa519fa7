-- ===== src/Tests/Startup.antt =====
-- The server starts with the keys that a set-up has made.
use merch.Base.{String, str_eq, ◌≡◌, refl, inl, [], ◌∷◌, ◌==◌, arith, if◌then◌else◌}
use merch.Go.Errors.{Result, ok}
use merch.Go.Strings.{codes}
use merch.Go.Decimal.{itoa}
use merch.Postgres.Schema.{Bytes}
use merch.Server.Process.{join_host_port, unless_closed, exit_code, server_main}
use merch.Server.Process.Startup.{IsReady, server_main-setup_jwt}
use merch.Tests.Files.{disk, marked, blank, with_keys, set_up, no_file}

abbrev environment : String → Bytes
environment name =
    if str_eq name "APP_PORT"
    then itoa 80
    else if str_eq name "APP_POSTGRES_URL"
    then codes "postgres:"
    else if str_eq name "APP_JWT_VERIFICATION_KEY_FILE"
    then codes "p"
    else if str_eq name "APP_JWT_SIGNATURE_KEY_FILE"
    then codes "s"
    else []

-- "p" is the public key's file, anything else the private key's.
abbrev path : Bytes → String
path [] = "priv.pem"
path (c ∷ s) = if c == 112 then "pub.pem" else "priv.pem"

ready : IsReady environment 80 (codes "p") (codes "s")
ready = record {
  port_set = refl;
  port_positive = omega arith;
  port_small = omega arith;
  url_head = 112;
  url_rest = codes "ostgres:";
  url_set = refl;
  verification_set = refl;
  signature_set = refl;
}

abbrev listen : Bytes → Bytes → Bytes → Result Unit
listen address key priv = ok tt

server_main-setup_jwt_example :
    server_main disk marked path environment (λ url. ok tt) listen with_keys
    ≡ exit_code
        (unless_closed (listen (join_host_port (codes "127.0.0.1") (itoa 80)) (9 ∷ []) (8 ∷ [])))
server_main-setup_jwt_example =
    server_main-setup_jwt disk marked path environment 80 112 115 [] [] (9 ∷ []) (8 ∷ [])
      (λ url. ok tt) listen blank with_keys ready refl refl (inl no_file) set_up
