-- ===== src/Users/Argon2.antt =====
-- internal/user/passwordhasher.go
pub mod Format
pub mod Verification
pub mod Bounds
use merch.Base.{
  ℕ, ◌+◌, ◌-◌, ◌*◌, ◌^◌, ◌<◌, ◌≤◌, ◌≡◌, Bool, true, false, ◌||◌, not, Option, none, some, List, [],
  ◌∷◌, ◌++◌, if◌then◌else◌,
}
use merch.Base.Int.{ℤ, pos, ltb_ℤ}
use merch.Base.Lists.{length}
use merch.Go.Errors.{
  Error, sentinel, password_not_match, other, wrap, wrap_result, Result, ok, err, panic,
}
use merch.Go.Results.{◌>>=◌, ◌>>◌}
use merch.Go.Strings.{codes, bytes_eq, cut_dollar, split}
use merch.Go.Decimal.{itoa}
use merch.Go.Scan.{scan_uint, scan_text}
use merch.Go.Base64.{AreBytes, encode, decode}
use merch.Postgres.Schema.{Bytes}

-- Argon2IDParams
pub record Argon2IdParams : Type 0 where
  pub memory : ℕ
  pub time : ℕ
  pub parallelism : ℕ
  pub salt_len : ℕ
  pub hash_len : ℕ

abbrev pub default_argon2_id_params : Argon2IdParams
default_argon2_id_params = record {
  memory = 64 * 1024;
  time = 1;
  parallelism = 1;
  salt_len = 16;
  hash_len = 32;
}

-- What is used of the packages argon2 and crypto/rand. `id_key` takes the password, the salt, the
-- time, the memory, the parallelism and the key's length, and panics at no rounds or no threads.
pub record Cryptography : Type 0 where
  pub id_key : Bytes → Bytes → ℕ → ℕ → ℕ → ℕ → Result Bytes
  -- the key has the length that was asked for
  pub id_key-length :
      (password salt key : Bytes) (time memory threads key_len : ℕ)
      → id_key password salt time memory threads key_len ≡ ok key
      → AreBytes key × (length key ≡ key_len)
  -- the n-th reading of so many random bytes
  pub random : ℕ → ℕ → Result Bytes
  pub random-length :
      (n len : ℕ) (salt : Bytes) → random n len ≡ ok salt → AreBytes salt × (length salt ≡ len)

-- argon2.Version
abbrev version : ℕ
version = 19

unfoldable pub format_password_hash_argon2_id : Bytes → Bytes → Argon2IdParams → Bytes
format_password_hash_argon2_id hash salt params =
    codes "$argon2id$v="
    ++ (itoa version
        ++ (codes "$m="
            ++ (itoa params.memory
                ++ (codes ",t="
                    ++ (itoa params.time
                        ++ (codes ",p="
                            ++ (itoa params.parallelism
                                ++ (codes "$" ++ (encode salt ++ (codes "$" ++ encode hash))))))))))

unfoldable pub int_to_uint32 : ℤ → Result ℕ
int_to_uint32 (pos i) =
    if ltb_ℤ (pos (2 ^ 32 - 1)) (pos i) then err (other "int out of uint32 bounds") else ok i
int_to_uint32 i = err (other "int out of uint32 bounds")

-- fmt.Fscanf(paramsFieldReader, "m=%d,t=%d,p=%d", &m, &t, &p), and what the reader has left
unfoldable pub scan_params : Bytes → Result (ℕ × ℕ × ℕ × Bytes)
scan_params s = do
  s1 ← scan_text (codes "m=") s
  (m, s2) ← scan_uint 32 s1
  s3 ← scan_text (codes ",t=") s2
  (t, s4) ← scan_uint 32 s3
  s5 ← scan_text (codes ",p=") s4
  (p, s6) ← scan_uint 8 s5
  ok (m, t, p, s6)

-- paramsFieldReader.Len() != 0
all_read : Bytes → Result Unit
all_read [] = ok tt
all_read (c ∷ s) = err (other "params: extra string")

pub record Parsed : Type 0 where
  pub hash : Bytes
  pub salt : Bytes
  pub params : Argon2IdParams

-- the fields after the id and the version
unfoldable pub parse_rest : Bytes → Bytes → Bytes → Result Parsed
unfolding all_read
parse_rest params_field salt_field hash_field = do
  (m, t, p, rest) ← wrap_result "params" (scan_params params_field)
  all_read rest
  salt ← wrap_result "salt" (decode salt_field)
  salt_len ← wrap_result "salt" (int_to_uint32 (pos (length salt)))
  hash ← wrap_result "hash" (decode hash_field)
  hash_len ← wrap_result "hash" (int_to_uint32 (pos (length hash)))
  ok (record {
    hash = hash;
    salt = salt;
    params = record {
      memory = m;
      time = t;
      parallelism = p;
      salt_len = salt_len;
      hash_len = hash_len;
    };
  })

unfoldable pub parse_fields : List Bytes → Result Parsed
parse_fields (id_field ∷ version_field ∷ params_field ∷ salt_field ∷ hash_field ∷ []) =
    if not (bytes_eq id_field (codes "argon2id"))
    then err (other "unsupported id")
    else if not (bytes_eq version_field (codes "v=" ++ itoa version))
    then err (other "unsupported version")
    else parse_rest params_field salt_field hash_field
parse_fields _ = err (other "invalid fields count")

abbrev pub after_prefix : Option Bytes → Result Parsed
after_prefix none = err (other "invalid prefix")
after_prefix (some s) = parse_fields (split s)

unfoldable pub parse_password_hash_argon2_id : Bytes → Result Parsed
parse_password_hash_argon2_id password_hash = after_prefix (cut_dollar password_hash)

module _ (c : Cryptography) where
  -- the key of a password with the salt and the parameters of a hash
  abbrev pub key_of : Bytes → Bytes → Argon2IdParams → Result Bytes
  key_of password salt params =
      c.id_key password salt params.time params.memory params.parallelism params.hash_len

  -- PasswordHasher.Hash, with the n-th salt
  unfoldable pub hash : Argon2IdParams → ℕ → Bytes → Result Bytes
  hash params n password = do
    salt ← wrap_result "HashPasswordArgon2ID" (c.random n params.salt_len)
    hash_raw ← key_of password salt params
    ok (format_password_hash_argon2_id hash_raw salt params)

  -- subtle.ConstantTimeCompare(gotHash, wantHash) == 1
  unfoldable pub compare_keys : Bytes → Bytes → Result Unit
  compare_keys got want =
      if bytes_eq got want
      then ok tt
      else err (wrap "VerifyPasswordArgon2ID" (sentinel password_not_match))

  -- PasswordHasher.Verify, which looks at no parameters but those of the hash
  unfoldable pub verify : Bytes → Bytes → Result Unit
  unfolding compare_keys
  verify password password_hash = do
    parsed ← wrap_result "VerifyPasswordArgon2ID" (parse_password_hash_argon2_id password_hash)
    got_hash ← key_of password parsed.salt parsed.params
    compare_keys got_hash parsed.hash
