-- ===== src/Tests/Tokens.antt =====
-- A library of tokens that knows one token, and the theorems on tokens there.
use merch.Base.{
  ℕ, zero, suc, ◌*◌, ◌^◌, ◌<◌, ltb, String, str_eq, eq_iff, ◌≡◌, refl, sym, ap, ◌∙◌, Bool, true,
  false, ◌&&◌, Option, none, some, [], ◌∷◌, ◌==◌, ==_eq, if◌then◌else◌, arith, Bool-cases, inl, inr,
  subst,
}
use merch.Go.Errors.{other, Result, ok, err, wrap_result}
use merch.Postgres.Schema.{Uuid, Bytes}
use merch.Tests.Data.{hash_parts}
use merch.Auth.Claims.{RegisteredClaims, Libraries}
use merch.Auth.Password.{Data}
use merch.Auth.Tokens.{issue_token, authenticate_token}
use merch.Auth.Acceptance.{authenticate_token-issue_token}

-- A UUID is written in unary.
abbrev pub marks : ℕ → String
marks zero = "x"
marks (suc n) = String.◌∷◌ "x" (marks n)

abbrev mark_count : String → ℕ
mark_count String.[] = 0
mark_count (String.◌∷◌ c s) = suc (mark_count s)

abbrev pub parse_marks : String → Option Uuid
parse_marks String.[] = none
parse_marks (String.◌∷◌ c s) = some (mark_count s)

mark_count-marks : (n : ℕ) → mark_count (marks n) ≡ suc n
mark_count-marks zero = refl
mark_count-marks (suc n) = ap suc (mark_count-marks n)

pub parse-marks : (n : ℕ) → parse_marks (marks n) ≡ some n
parse-marks zero = refl
parse-marks (suc n) = ap some (mark_count-marks n)

pub marks_ne_empty : (n : ℕ) → str_eq (marks n) "" ≡ false
marks_ne_empty n = elim (Bool-cases (str_eq (marks n) "")) [
  | inl e ↦ absurd (positive (sym (mark_count-marks n) ∙ ap mark_count ((eq_iff (marks n) "").0 e)))
  | inr h ↦ h
]
  where
    positive : suc n ≡ 0 → ⊥
    positive e = omega arith

-- the claims of the token of user 2
abbrev pub bob_claims : RegisteredClaims
bob_claims = record { subject = marks 2; expires_at = some 3600; issued_at = some 0; id = marks 1 }

abbrev same_date : Option ℕ → Option ℕ → Bool
same_date none none = true
same_date (some a) (some b) = a == b
same_date none (some b) = false
same_date (some a) none = false

abbrev same_claims : RegisteredClaims → RegisteredClaims → Bool
same_claims c d =
    str_eq c.subject d.subject
    && (same_date c.expires_at d.expires_at
        && (same_date c.issued_at d.issued_at && str_eq c.id d.id))

abbrev sign : Bool → Result Bytes
sign b = if b then ok (7 ∷ []) else err (other "no key")

abbrev parse : Bool → Bytes → Result RegisteredClaims
parse in_time (c ∷ []) = if in_time then ok bob_claims else err (other "token is expired")
parse in_time _ = err (other "token is malformed")

same_date_lem : (a b : Option ℕ) → same_date a b ≡ true → a ≡ b
same_date_lem none none e = refl
same_date_lem (some a) (some b) e = ap some (==_eq a b e)
same_date_lem none (some b) e = ground arith
same_date_lem (some a) none e = ground arith

claims_eq :
    (c d : RegisteredClaims)
    → c.subject ≡ d.subject
    → c.expires_at ≡ d.expires_at
    → c.issued_at ≡ d.issued_at
    → c.id ≡ d.id
    → c ≡ d
claims_eq c d p q r s i = record { subject = p i; expires_at = q i; issued_at = r i; id = s i }

pub same_claims_lem : (c d : RegisteredClaims) → same_claims c d ≡ true → c ≡ d
same_claims_lem c d e =
    claims_eq c d ((eq_iff c.subject d.subject).0 (ground arith))
      (same_date_lem c.expires_at d.expires_at (ground arith))
      (same_date_lem c.issued_at d.issued_at (ground arith)) ((eq_iff c.id d.id).0 (ground arith))

pub signed_token : (b : Bool) (t : Bytes) → sign b ≡ ok t → (b ≡ true) × (7 ∷ [] ≡ t)
signed_token true t e = (refl, hash_parts (7 ∷ []) t e)
signed_token false t e = cc

expiry : (c : RegisteredClaims) (e : ℕ) → c ≡ bob_claims → c.expires_at ≡ some e → e ≡ 3600
expiry c e h x = ap date (sym x ∙ ap (λ (k : RegisteredClaims). k.expires_at) h)
  where
    date : Option ℕ → ℕ
    date none = 0
    date (some n) = n

pub parsed_token :
    (c : RegisteredClaims) (exp now : ℕ) (token : Bytes)
    → sign (same_claims c bob_claims) ≡ ok token
    → c.expires_at ≡ some exp
    → now < exp * 10 ^ 9
    → parse (ltb now (3600 * 10 ^ 9)) token ≡ ok c
parsed_token c exp now token signed expires fresh =
    let (same, t) = signed_token (same_claims c bob_claims) token signed in
    let is_bob = same_claims_lem c bob_claims same in
    let e = expiry c exp is_bob expires in
    let in_time : ltb now (3600 * 10 ^ 9) ≡ true =
      (let f : now < 3600 * 10 ^ 9 = subst (λ x. now < x * 10 ^ 9) e fresh in ground arith) in
    rw (← t, in_time, is_bob) refl

abbrev pub one_token : Libraries
one_token = record {
  signed_string = λ key c. sign (same_claims c bob_claims);
  parse_with_claims = λ key now token. parse (ltb now (3600 * 10 ^ 9)) token;
  is_key_pair = λ a b. true;
  parse-signed = λ a b c exp now token pair signed expires fresh.
      parsed_token c exp now token signed expires fresh;
  uuid_string = marks;
  uuid_parse = parse_marks;
  uuid_string-ne-empty = marks_ne_empty;
  uuid_parse-string = parse-marks;
}

abbrev bob_data : Data
bob_data = record { user_id = 2 }

authenticate_token-issue_token_example : authenticate_token one_token [] 5 (7 ∷ []) ≡ ok bob_data
unfolding issue_token wrap_result
authenticate_token-issue_token_example =
    authenticate_token-issue_token one_token [] [] 1 0 5 2 (7 ∷ []) refl refl (omega arith)
