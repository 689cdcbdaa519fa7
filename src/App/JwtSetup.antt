-- ===== src/App/JwtSetup.antt =====
-- internal/app/jwtsetup.go
pub mod Existing
pub mod KeyPair
use merch.Base.{String, Bool, true, false, ◌&&◌, ◌||◌, if◌then◌else◌}
use merch.Go.Errors.{other, file_not_exist, errors_is, Result, ok, err, panic}
use merch.Go.Results
use merch.Postgres.Schema.{Bytes}
use merch.App.Files.{FileSystem, FileAction, lift, wrapped, ◌>>=◌, ◌>>◌}
use merch.App.Keys.{KeyFormats}

-- switch _, err := os.Stat(name); { … }
abbrev pub exists_of : Result Unit → Result Bool
exists_of (ok _) = ok true
exists_of (err e) = if errors_is e file_not_exist then ok false else err e
exists_of panic = panic

module _ (kf : KeyFormats) where
  unfoldable pub pem_encode_ed25519_private_key : Bytes → Result Bytes
  pem_encode_ed25519_private_key priv =
      Results.◌>>=◌ (kf.marshal_pkcs8_private_key priv) (kf.pem_encode "PRIVATE KEY")

  unfoldable pub pem_encode_ed25519_public_key : Bytes → Result Bytes
  pem_encode_ed25519_public_key key =
      Results.◌>>=◌ (kf.marshal_pkix_public_key key) (kf.pem_encode "PUBLIC KEY")

module _ {S : Type 0} (fs : FileSystem S) where
  unfoldable pub file_exists : String → FileAction S Bool
  file_exists name s = (exists_of (fs.stat name s), s)

  module _ (kf : KeyFormats) (generated : Result (Bytes × Bytes))
      (pub_file priv_file : String) where
    -- from `ed25519.GenerateKey` on, whose result is `generated`
    unfoldable pub create_keys : FileAction S Unit
    create_keys = do
      (key, priv) ← lift generated
      pub_pem ← lift (pem_encode_ed25519_public_key kf key)
      priv_pem ← lift (pem_encode_ed25519_private_key kf priv)
      fs.mkdir_all (fs.dir pub_file)
      fs.write_file pub_file pub_pem
      fs.mkdir_all (fs.dir priv_file)
      fs.write_file priv_file priv_pem

    unfoldable pub unless_exists : Bool → Bool → FileAction S Unit
    unless_exists pub_exists priv_exists =
        if pub_exists || priv_exists
        then if pub_exists && priv_exists
          then lift (ok tt)
          else lift (err (other "app.SetupJWT: only one of public and private key files exists"))
        else wrapped "app.SetupJWT" create_keys

    unfoldable pub setup_jwt : FileAction S Unit
    setup_jwt = do
      pub_exists ← wrapped "app.SetupJWT" (file_exists pub_file)
      priv_exists ← wrapped "app.SetupJWT" (file_exists priv_file)
      unless_exists pub_exists priv_exists
