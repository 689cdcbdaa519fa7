-- ===== src/Users/Argon2/Verification.antt =====
-- Hashes and their verification.
use merch.Base.{ℕ, ◌≡◌, ◌≢◌, refl, sym, ap, ◌∙◌, Bool-cases, inl, inr, arith}
use merch.Go.Errors.{sentinel, password_not_match, wrap, wrap_result, ok, err}
use merch.Go.Results.{>>=-eq-ok, wrap_result-eq-ok, ok_value}
use merch.Go.Strings.{bytes_eq, bytes_eq_refl, eq_of_bytes_eq}
use merch.Users.Hashing.{PasswordHasher}
use merch.Users.Argon2.{
  Argon2IdParams, Cryptography, Parsed, parse_password_hash_argon2_id,
  format_password_hash_argon2_id, key_of, hash, compare_keys, verify,
}
use merch.Users.Argon2.Format.{AreWords, parse-format}
use merch.Postgres.Schema.{Bytes}

module _ (c : Cryptography) where
  -- What a hash is made of.
  pub record IsHashed (params : Argon2IdParams) (n : ℕ) (password h : Bytes) : Type 0 where
    pub salt : Bytes
    pub key : Bytes
    pub drawn : c.random n params.salt_len ≡ ok salt
    pub derived : key_of c password salt params ≡ ok key
    pub formatted : h ≡ format_password_hash_argon2_id key salt params

  hash-IsHashed :
      (params : Argon2IdParams) (n : ℕ) (password h : Bytes)
      → hash c params n password ≡ ok h
      → IsHashed params n password h
  unfolding hash
  hash-IsHashed params n password h e =
      let (salt, drawn, e1) =
        >>=-eq-ok (wrap_result "HashPasswordArgon2ID" (c.random n params.salt_len)) _ h e in
      let (key, derived, e2) = >>=-eq-ok (key_of c password salt params) _ h e1 in
      record {
        salt = salt;
        key = key;
        drawn = wrap_result-eq-ok "HashPasswordArgon2ID" salt (c.random n params.salt_len) drawn;
        derived = derived;
        formatted = sym (ok_value e2);
      }

  compared : (got want : Bytes) → compare_keys c got want ≡ ok tt → got ≡ want
  unfolding compare_keys
  compared got want e = elim (Bool-cases (bytes_eq got want)) [
    | inl same ↦ eq_of_bytes_eq got want same
    | inr other ↦ ground (arith, other)
  ]

  -- the parsed hash, and the key that the password gives
  pub record Matches (password h : Bytes) : Type 0 where
    pub parsed : Parsed
    pub parses : parse_password_hash_argon2_id h ≡ ok parsed
    pub derived : key_of c password parsed.salt parsed.params ≡ ok parsed.hash

  -- For parameters that the fields of Argon2IDParams can hold, and a salt and a key of the lengths
  -- that are asked for, Verify accepts a password with the text that Hash returned for it.
  pub verify-hash :
      (params : Argon2IdParams) (n : ℕ) (password h : Bytes)
      → AreWords params
      → hash c params n password ≡ ok h
      → verify c password h ≡ ok tt
  unfolding verify compare_keys wrap_result
  verify-hash params n password h words e =
      let i = hash-IsHashed params n password h e in
      let (kb, kl) =
        c.id_key-length password i.salt i.key params.time params.memory params.parallelism
          params.hash_len i.derived in
      let (sb, sl) = c.random-length n params.salt_len i.salt i.drawn in
      rw
        (
          i.formatted,
          parse-format i.key i.salt params kb sb words kl sl,
          wrap_result,
          i.derived,
          bytes_eq_refl,
        )
        refl

  -- If Verify accepts a password, then the hash parses, and the password's key with the salt and
  -- the parameters of the hash is the key in it.
  pub verify-Matches : (password h : Bytes) → verify c password h ≡ ok tt → Matches password h
  unfolding verify compare_keys
  verify-Matches password h e =
      let (parsed, parses, e1) =
        >>=-eq-ok (wrap_result "VerifyPasswordArgon2ID" (parse_password_hash_argon2_id h)) _ tt e in
      let (key, derived, e2) = >>=-eq-ok (key_of c password parsed.salt parsed.params) _ tt e1 in
      record {
        parsed = parsed;
        parses =
            wrap_result-eq-ok "VerifyPasswordArgon2ID" parsed (parse_password_hash_argon2_id h)
              parses;
        derived = derived ∙ ap ok (compared key parsed.hash e2);
      }

  -- For parameters that the fields of Argon2IDParams can hold, if Hash returned a text for one
  -- password with a salt, and another password gives a key with this salt that is not the first
  -- password's, then Verify of the other password and the text fails with ErrPasswordNotMatch.
  pub verify-hash_other :
      (params : Argon2IdParams) (n : ℕ) (password other h salt key : Bytes)
      → AreWords params
      → hash c params n password ≡ ok h
      → c.random n params.salt_len ≡ ok salt
      → key_of c other salt params ≡ ok key
      → key_of c password salt params ≢ ok key
      → verify c other h ≡ err (wrap "VerifyPasswordArgon2ID" (sentinel password_not_match))
  unfolding verify compare_keys wrap_result
  verify-hash_other params n password other h salt key words e drawn derived differ =
      let i = hash-IsHashed params n password h e in
      let (kb, kl) =
        c.id_key-length password i.salt i.key params.time params.memory params.parallelism
          params.hash_len i.derived in
      let (sb, sl) = c.random-length n params.salt_len i.salt i.drawn in
      let salts : i.salt ≡ salt = ok_value (sym i.drawn ∙ drawn) in
      let derived' : key_of c other i.salt params ≡ ok key = rw salts derived in
      elim (Bool-cases (bytes_eq key i.key)) [
        | inl same ↦ absurd (
            differ (
              ap (λ s. key_of c password s params) (sym salts)
              ∙ i.derived
              ∙ ap ok (sym (eq_of_bytes_eq key i.key same))))
        | inr different ↦
            rw
              (
                i.formatted,
                parse-format i.key i.salt params kb sb words kl sl,
                wrap_result,
                derived',
                different,
              )
              refl
      ]

  -- The interface that internal/auth uses.
  abbrev pub argon2_hasher : (params : Argon2IdParams) → AreWords params → PasswordHasher
  argon2_hasher params words = record {
    hash = hash c params;
    verify = verify c;
    verify-hash = λ n p h e. verify-hash params n p h words e;
  }
