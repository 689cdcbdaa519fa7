-- ===== src/Auth/Tokens.antt =====
-- internal/auth/tokenissuer.go and internal/auth/tokenauthenticator.go
use merch.Base.{ℕ, ◌+◌, ◌*◌, ◌^◌, String, Option, none, some, str_eq, if◌then◌else◌}
use Prim.Native.Nat.{◌/◌}
use merch.Go.Errors.{other, Result, ok, err, panic, wrap_result}
use merch.Postgres.Schema.{Uuid, Time, Bytes}
use merch.Auth.Claims.{RegisteredClaims, Libraries}
use merch.Auth.Password.{Data}

-- jwt.NewNumericDate truncates to seconds.
abbrev pub numeric_date : Time → ℕ
numeric_date t = t / 10 ^ 9

abbrev pub hour : Time
hour = 3600 * 10 ^ 9

abbrev pub claims_for : Libraries → Uuid → Uuid → Time → RegisteredClaims
claims_for lib user_id id issued_at = record {
  subject = lib.uuid_string user_id;
  expires_at = some (numeric_date (issued_at + hour));
  issued_at = some (numeric_date issued_at);
  id = lib.uuid_string id;
}

-- IssueToken, with the values of uuid.New() and time.Now()
unfoldable pub issue_token : Libraries → Bytes → Uuid → Time → Uuid → Result Bytes
issue_token lib signature_key id now user_id =
    wrap_result "auth.TokenIssuer" (lib.signed_string signature_key (claims_for lib user_id id now))

abbrev pub failure : {A : Type 0} → String → Result A
failure m = err (other m)

unfoldable pub check_id : Libraries → RegisteredClaims → Uuid → Option Uuid → Result Data
check_id lib c user_id none = failure "auth.TokenAuthenticator: jti token claim: invalid UUID"
check_id lib c user_id (some id) = ok (record { user_id = user_id })

unfoldable pub check_times : Libraries → RegisteredClaims → Uuid → Option ℕ → Option ℕ → Result Data
unfolding check_id
check_times lib c user_id none iat = failure "auth.TokenAuthenticator: empty exp token claim"
check_times lib c user_id (some exp) none = failure "auth.TokenAuthenticator: empty iat token claim"
check_times lib c user_id (some exp) (some iat) =
    if str_eq c.id ""
    then failure "auth.TokenAuthenticator: empty jti token claim"
    else check_id lib c user_id (lib.uuid_parse c.id)

unfoldable pub check_subject : Libraries → RegisteredClaims → Option Uuid → Result Data
unfolding check_times
check_subject lib c none = failure "auth.TokenAuthenticator: sub token claim: invalid UUID"
check_subject lib c (some user_id) = check_times lib c user_id c.expires_at c.issued_at

-- from `claims, ok := …` on
unfoldable pub check_claims : Libraries → Result RegisteredClaims → Result Data
unfolding check_subject
check_claims lib (ok c) =
    if str_eq c.subject ""
    then failure "auth.TokenAuthenticator: empty sub token claim"
    else check_subject lib c (lib.uuid_parse c.subject)
check_claims lib (err e) = err e
check_claims lib panic = panic

-- AuthenticateToken at a time
unfoldable pub authenticate_token : Libraries → Bytes → Time → Bytes → Result Data
unfolding check_claims
authenticate_token lib verification_key now token =
    check_claims lib
      (wrap_result "auth.TokenAuthenticator" (lib.parse_with_claims verification_key now token))
