-- ===== src/App/Keys.antt =====
-- internal/app/ed25519.go
use merch.Base.{String, Option, none, some, ◌≡◌}
use merch.Go.Errors.{other, Result, ok, err, wrap_result}
use merch.Go.Results.{◌>>=◌}
use merch.Postgres.Schema.{Bytes}
use merch.App.Files.{FileSystem}

-- What the parsers of crypto/x509 return as `any`.
pub data AnyKey : Type 0 where
  ed25519_key : Bytes → AnyKey
  other_key : AnyKey

-- What is used of the packages crypto/x509 and encoding/pem.
pub record KeyFormats : Type 0 where
  pub marshal_pkix_public_key : Bytes → Result Bytes
  pub marshal_pkcs8_private_key : Bytes → Result Bytes
  pub parse_pkix_public_key : Bytes → Result AnyKey
  pub parse_pkcs8_private_key : Bytes → Result AnyKey
  -- pem.Encode of a block with that type and those bytes
  pub pem_encode : String → Bytes → Result Bytes
  -- pem.Decode: the bytes of the first block, if there is one
  pub pem_decode : Bytes → Option Bytes
  -- what has been encoded is decoded
  pub pem_decode-encode :
      (label : String) (block encoded : Bytes)
      → pem_encode label block ≡ ok encoded
      → pem_decode encoded ≡ some block
  pub parse-marshal-public :
      (key encoded : Bytes)
      → marshal_pkix_public_key key ≡ ok encoded
      → parse_pkix_public_key encoded ≡ ok (ed25519_key key)
  pub parse-marshal-private :
      (key encoded : Bytes)
      → marshal_pkcs8_private_key key ≡ ok encoded
      → parse_pkcs8_private_key encoded ≡ ok (ed25519_key key)

-- if block == nil { return nil, fmt.Errorf("app.ReadFileED25519PublicKey: %w", err) }
-- Here `err` is nil, and Errorf writes so in its place.
abbrev pub block_of : Option Bytes → Result Bytes
block_of none = err (other "app.ReadFileED25519PublicKey: %!w(<nil>)")
block_of (some block) = ok block

-- publicKeyAny.(ed25519.PublicKey), privateKeyAny.(ed25519.PrivateKey)
abbrev pub ed25519_of : String → AnyKey → Result Bytes
ed25519_of message (ed25519_key key) = ok key
ed25519_of message other_key = err (other message)

module _ {S : Type 0} (fs : FileSystem S) (kf : KeyFormats) where
  unfoldable pub read_file_ed25519_public_key : String → S → Result Bytes
  read_file_ed25519_public_key name s = do
    pem_bytes ← wrap_result "app.ReadFileED25519PublicKey" (fs.read_file name s)
    block ← block_of (kf.pem_decode pem_bytes)
    key ← wrap_result "app.ReadFileED25519PublicKey" (kf.parse_pkix_public_key block)
    ed25519_of "app.ReadFileED25519PublicKey: not an ed25519 public key file" key

  -- The prefix is that of the public key, as in the source.
  unfoldable pub read_file_ed25519_private_key : String → S → Result Bytes
  read_file_ed25519_private_key name s = do
    pem_bytes ← wrap_result "app.ReadFileED25519PublicKey" (fs.read_file name s)
    block ← block_of (kf.pem_decode pem_bytes)
    key ← wrap_result "app.ReadFileED25519PublicKey" (kf.parse_pkcs8_private_key block)
    ed25519_of "app.ReadFileED25519PublicKey: not an ed25519 private key file" key
