-- ===== src/Auth/Claims.antt =====
-- What internal/auth uses of the packages jwt and uuid: their documented behaviour as laws.
use merch.Base.{ℕ, String, ◌≡◌, Bool, true, false, Option, some, ◌*◌, ◌^◌, ◌<◌, str_eq}
use merch.Go.Errors.{Result, ok}
use merch.Postgres.Schema.{Uuid, Time, Bytes}

-- jwt.RegisteredClaims; a NumericDate counts seconds, a Time nanoseconds.
pub record RegisteredClaims : Type 0 where
  pub subject : String
  pub expires_at : Option ℕ
  pub issued_at : Option ℕ
  pub id : String

pub record Libraries : Type 0 where
  -- token.SignedString(key) with EdDSA
  pub signed_string : Bytes → RegisteredClaims → Result Bytes
  -- jwt.ParseWithClaims at a time, with EdDSA the only valid method
  pub parse_with_claims : Bytes → Time → Bytes → Result RegisteredClaims
  -- are these the public and the private key of one pair?
  pub is_key_pair : Bytes → Bytes → Bool
  -- a signed token parses under the other key of the pair, until it expires
  pub parse-signed :
      (public_key private_key : Bytes) (c : RegisteredClaims) (exp : ℕ) (now : Time) (token : Bytes)
      → is_key_pair public_key private_key ≡ true
      → signed_string private_key c ≡ ok token
      → c.expires_at ≡ some exp
      → now < exp * 10 ^ 9
      → parse_with_claims public_key now token ≡ ok c
  -- uuid.UUID.String and uuid.Parse
  pub uuid_string : Uuid → String
  pub uuid_parse : String → Option Uuid
  -- 36 characters
  pub uuid_string-ne-empty : (u : Uuid) → str_eq (uuid_string u) "" ≡ false
  pub uuid_parse-string : (u : Uuid) → uuid_parse (uuid_string u) ≡ some u
