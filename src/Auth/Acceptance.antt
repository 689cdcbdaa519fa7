-- ===== src/Auth/Acceptance.antt =====
-- Which tokens `AuthenticateToken` accepts.
use merch.Base.{
  ℕ, ◌+◌, ◌*◌, ◌^◌, ◌<◌, String, ◌≡◌, refl, true, false, Option, none, some, str_eq, arith,
  Bool-cases, inl, inr, ap, ◌∙◌,
}
use merch.Go.Errors.{Result, ok, err, panic, wrap_result}
use merch.Go.Results.{wrap_result-eq-ok}
use merch.Postgres.Schema.{Uuid, Time, Bytes}
use merch.Auth.Claims.{RegisteredClaims, Libraries}
use merch.Auth.Password.{Data}
use merch.Auth.Tokens.{
  numeric_date, hour, claims_for, issue_token, check_claims, authenticate_token, check_subject,
  check_times, check_id,
}

-- What the claims of an accepted token say.
pub record AreFor (lib : Libraries) (user_id : Uuid) (c : RegisteredClaims) : Type 0 where
  pub exp : ℕ
  pub iat : ℕ
  pub jti : Uuid
  pub subject_parses : lib.uuid_parse c.subject ≡ some user_id
  pub expires : c.expires_at ≡ some exp
  pub issued : c.issued_at ≡ some iat
  pub id_parses : lib.uuid_parse c.id ≡ some jti

wrapped_ok : {A : Type 0} (p : String) (a : A) (r : Result A) → r ≡ ok a → wrap_result p r ≡ ok a
unfolding wrap_result
wrapped_ok p a (ok b) e = e
wrapped_ok p a (err x) e = cc
wrapped_ok p a panic e = cc

user_id_of :
    {u : Uuid} {d : Data}
    → ◌≡◌ {A = Result Data} (ok (record { user_id = u })) (ok d)
    → u ≡ d.user_id
user_id_of {u} e = ap id_in e
  where
    id_in : Result Data → Uuid
    id_in (ok d) = d.user_id
    id_in (err x) = u
    id_in panic = u

module _ (lib : Libraries) where
  check_id_lem :
      (c : RegisteredClaims) (u : Uuid) (x : Option Uuid) (d : Data)
      → check_id lib c u x ≡ ok d
      → (j : Uuid) × (x ≡ some j) × (u ≡ d.user_id)
  unfolding check_id
  check_id_lem c u none d e = cc
  check_id_lem c u (some j) d e = (j, refl, user_id_of e)

  check_times_lem :
      (c : RegisteredClaims) (u : Uuid) (x y : Option ℕ) (d : Data)
      → check_times lib c u x y ≡ ok d
      → (exp : ℕ) × (iat : ℕ) × (x ≡ some exp)
        × (y ≡ some iat)
        × ((j : Uuid) × (lib.uuid_parse c.id ≡ some j) × (u ≡ d.user_id))
  unfolding check_times
  check_times_lem c u none y d e = cc
  check_times_lem c u (some exp) none d e = cc
  check_times_lem c u (some exp) (some iat) d e = elim (Bool-cases (str_eq c.id "")) [
    | inl empty ↦ ground arith
    | inr given ↦ (exp, iat, refl, refl, check_id_lem c u (lib.uuid_parse c.id) d (ground arith))
  ]

  check_subject_lem :
      (c : RegisteredClaims) (x : Option Uuid) (d : Data)
      → lib.uuid_parse c.subject ≡ x
      → check_subject lib c x ≡ ok d
      → AreFor lib d.user_id c
  unfolding check_subject
  check_subject_lem c none d p e = cc
  check_subject_lem c (some u) d p e =
      let (exp, iat, is_exp, is_iat, (j, is_id, same)) =
        check_times_lem c u c.expires_at c.issued_at d e in
      record {
        exp = exp;
        iat = iat;
        jti = j;
        subject_parses = p ∙ ap some same;
        expires = is_exp;
        issued = is_iat;
        id_parses = is_id;
      }

  check_claims-AreFor :
      (c : RegisteredClaims) (d : Data) → check_claims lib (ok c) ≡ ok d → AreFor lib d.user_id c
  unfolding check_claims
  check_claims-AreFor c d e = elim (Bool-cases (str_eq c.subject "")) [
    | inl empty ↦ ground arith
    | inr given ↦ check_subject_lem c (lib.uuid_parse c.subject) d refl (ground arith)
  ]

  -- the token of `d` at the time `now`
  pub record IsAccepted (key : Bytes) (now : Time) (token : Bytes) (d : Data) : Type 0 where
    pub claims : RegisteredClaims
    pub parsed : lib.parse_with_claims key now token ≡ ok claims
    pub say : AreFor lib d.user_id claims

  -- If AuthenticateToken accepts a token, then the token parsed with the key at that time, its
  -- subject parses as the returned user's id, it has times of expiry and of issue, and its id
  -- parses as a UUID.
  pub authenticate_token-IsAccepted :
      (key : Bytes) (now : Time) (token : Bytes) (d : Data)
      → authenticate_token lib key now token ≡ ok d
      → IsAccepted key now token d
  unfolding authenticate_token wrap_result check_claims
  authenticate_token-IsAccepted key now token d e = go (lib.parse_with_claims key now token) refl e
    where
      go :
          (r : Result RegisteredClaims)
          → lib.parse_with_claims key now token ≡ r
          → check_claims lib (wrap_result "auth.TokenAuthenticator" r) ≡ ok d
          → IsAccepted key now token d
      go (ok c) p h = record { claims = c; parsed = p; say = check_claims-AreFor c d h }
      go (err x) p h = cc
      go panic p h = cc

  claims_for-accepted :
      (c : RegisteredClaims) (user_id : Uuid)
      → AreFor lib user_id c
      → str_eq c.subject "" ≡ false
      → str_eq c.id "" ≡ false
      → check_claims lib (ok c) ≡ ok (record { user_id = user_id })
  unfolding check_claims check_subject check_times check_id
  claims_for-accepted c user_id a s i =
      rw (s, a.subject_parses, a.expires, a.issued, i, a.id_parses) refl

  -- A token that IssueToken returned for a user is accepted by AuthenticateToken, with the other
  -- key of the pair, as that user's, at every time before the second to which its expiry, an hour
  -- after its issue, was cut.
  pub authenticate_token-issue_token :
      (public_key private_key : Bytes) (id : Uuid) (issued_at now : Time) (user_id : Uuid)
      (token : Bytes)
      → lib.is_key_pair public_key private_key ≡ true
      → issue_token lib private_key id issued_at user_id ≡ ok token
      → now < numeric_date (issued_at + hour) * 10 ^ 9
      → authenticate_token lib public_key now token ≡ ok (record { user_id = user_id })
  unfolding issue_token authenticate_token
  authenticate_token-issue_token public_key private_key id issued_at now user_id token pair issued
        fresh =
      let c = claims_for lib user_id id issued_at in
      let signed =
        wrap_result-eq-ok "auth.TokenIssuer" token (lib.signed_string private_key c) issued in
      let parsed =
        lib.parse-signed public_key private_key c (numeric_date (issued_at + hour)) now token pair
          signed refl fresh in
      let a : AreFor lib user_id c = record {
        exp = numeric_date (issued_at + hour);
        iat = numeric_date issued_at;
        jti = id;
        subject_parses = lib.uuid_parse-string user_id;
        expires = refl;
        issued = refl;
        id_parses = lib.uuid_parse-string id;
      } in
      ap (check_claims lib) (wrapped_ok "auth.TokenAuthenticator" c _ parsed)
      ∙ claims_for-accepted c user_id a (lib.uuid_string-ne-empty user_id)
          (lib.uuid_string-ne-empty id)
