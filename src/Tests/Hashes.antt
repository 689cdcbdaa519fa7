-- ===== src/Tests/Hashes.antt =====
-- The theorems on password hashes, with a key derivation that can be run.
use merch.Base.{ℕ, zero, suc, ◌*◌, ◌≡◌, ◌≢◌, refl, subst, ap, [], ◌∷◌, arith, ltb, if◌then◌else◌}
use merch.Base.Lists.{length}
use merch.Go.Errors.{sentinel, password_not_match, wrap, wrap_result, ok, err}
use merch.Go.Results.{ok_value}
use merch.Go.Strings.{codes}
use merch.Go.Base64.{AreBytes}
use merch.Users.Argon2.{
  Argon2IdParams, Cryptography, Parsed, format_password_hash_argon2_id,
  parse_password_hash_argon2_id, key_of, hash, verify,
}
use merch.Users.Argon2.Format.{AreWords, parse-format}
use merch.Users.Argon2.Verification.{verify-hash, Matches, verify-Matches, verify-hash_other}
use merch.Users.Argon2.Bounds.{IsWellSized, parse-IsWellSized}
use merch.Postgres.Schema.{Bytes}

-- The password's bytes, cut or filled up with zeros.
abbrev pub stretch : ℕ → Bytes → Bytes
stretch zero p = []
stretch (suc n) [] = 0 ∷ stretch n []
stretch (suc n) (c ∷ p) = (if ltb c 256 then c else 0) ∷ stretch n p

stretch-AreBytes : (n : ℕ) (p : Bytes) → AreBytes (stretch n p)
stretch-AreBytes zero p = tt
stretch-AreBytes (suc n) [] = (omega arith, stretch-AreBytes n [])
stretch-AreBytes (suc n) (c ∷ p) = (ground arith, stretch-AreBytes n p)

length-stretch : (n : ℕ) (p : Bytes) → length (stretch n p) ≡ n
length-stretch zero p = refl
length-stretch (suc n) [] = ap suc (length-stretch n [])
length-stretch (suc n) (c ∷ p) = ap suc (length-stretch n p)

pub stretched : (n : ℕ) (p k : Bytes) → ok (stretch n p) ≡ ok k → AreBytes k × (length k ≡ n)
stretched n p k e =
    subst (λ k. AreBytes k × (length k ≡ n)) (ok_value e) (stretch-AreBytes n p, length-stretch n p)

abbrev pub stretching : Cryptography
stretching = record {
  id_key = λ password salt time memory threads key_len. ok (stretch key_len password);
  id_key-length =
      λ password salt key time memory threads key_len e. stretched key_len password key e;
  random = λ n len. ok (stretch len (n ∷ []));
  random-length = λ n len salt e. stretched len (n ∷ []) salt e;
}

-- The lengths are small, so that the hash is short.
abbrev small : Argon2IdParams
small = record { memory = 64 * 1024; time = 1; parallelism = 4; salt_len = 4; hash_len = 5 }

small-AreWords : AreWords small
small-AreWords = record {
  memory = omega arith;
  time = omega arith;
  parallelism = omega arith;
  salt_len = omega arith;
  hash_len = omega arith;
}

abbrev secret : Bytes
secret = codes "secret"

abbrev secret_salt : Bytes
secret_salt = 7 ∷ 0 ∷ 0 ∷ 0 ∷ []

abbrev secret_parsed : Parsed
secret_parsed = record { hash = codes "secre"; salt = secret_salt; params = small }

abbrev secret_hash : Bytes
secret_hash = format_password_hash_argon2_id (codes "secre") secret_salt small

parse_secret : parse_password_hash_argon2_id secret_hash ≡ ok secret_parsed
parse_secret =
    parse-format (codes "secre") secret_salt small (stretch-AreBytes 5 secret)
      (stretch-AreBytes 4 (7 ∷ [])) small-AreWords refl refl

hash_secret : hash stretching small 7 secret ≡ ok secret_hash
unfolding hash wrap_result
hash_secret = refl

verify-hash_example : verify stretching secret secret_hash ≡ ok tt
verify-hash_example = verify-hash stretching small 7 secret secret_hash small-AreWords hash_secret

verify-Matches_example : Matches stretching secret secret_hash
verify-Matches_example =
    verify-Matches stretching secret secret_hash
      (verify-hash stretching small 7 secret secret_hash small-AreWords hash_secret)

other_key : key_of stretching secret secret_salt small ≢ ok (codes "other")
other_key e = ground (arith, ok_value e)

verify-hash_other_example :
    verify stretching (codes "other") secret_hash
    ≡ err (wrap "VerifyPasswordArgon2ID" (sentinel password_not_match))
verify-hash_other_example =
    verify-hash_other stretching small 7 secret (codes "other") secret_hash secret_salt
      (codes "other") small-AreWords hash_secret refl refl other_key

parse-IsWellSized_example : IsWellSized secret_parsed
parse-IsWellSized_example = parse-IsWellSized secret_hash secret_parsed parse_secret
