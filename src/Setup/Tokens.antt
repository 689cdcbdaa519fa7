-- ===== src/Setup/Tokens.antt =====
-- cmd/setup/authtest.go: `GenerateAuthTokens`. It takes no token from the database.
use merch.Base.{ℕ, ◌+◌, ◌*◌, ◌^◌, ◌<◌, ◌≤◌, ◌≡◌, subst, true, arith, List, [], ◌∷◌}
use merch.Go.Errors.{Result, ok, wrap_result}
use merch.Go.Results.{◌>>=◌, >>=-eq-ok, wrap_result-eq-ok, ok_value}
use merch.Postgres.Schema.{Uuid, Time, Bytes}
use merch.Auth.Claims.{Libraries}
use merch.Auth.Tokens.{hour, numeric_date, issue_token, authenticate_token}
use merch.Auth.Acceptance.{authenticate_token-issue_token}
use merch.Setup.Users.{SetupUser}

module _ (lib : Libraries) (signature_key : Bytes) (uuid_new : ℕ → Uuid) (time_now : ℕ → Time) where
  -- the loop over the users, from `i` on, with the values of uuid.New() and time.Now() in each turn
  unfoldable pub issue_tokens : ℕ → List SetupUser → Result (List Bytes)
  issue_tokens i [] = ok []
  issue_tokens i (u ∷ us) = do
    token ←
        wrap_result "GenerateAuthTokens"
          (issue_token lib signature_key (uuid_new i) (time_now i) u.id)
    tokens ← issue_tokens (i + 1) us
    ok (token ∷ tokens)

  unfoldable pub generate_auth_tokens : List SetupUser → Result (List Bytes)
  generate_auth_tokens users = issue_tokens 0 users

  -- The tokens of the users, by their index, as the server reads them at the time `t`.
  unfoldable pub AreTokensOf : Bytes → Time → List SetupUser → List Bytes → Type 0
  AreTokensOf k t [] [] = Unit
  AreTokensOf k t [] (x ∷ xs) = ⊥
  AreTokensOf k t (u ∷ us) [] = ⊥
  AreTokensOf k t (u ∷ us) (x ∷ xs) =
      (authenticate_token lib k t x ≡ ok (record { user_id = u.id })) × AreTokensOf k t us xs

  fresh_at :
      (start t : Time) (n : Time)
      → start ≤ n
      → t < numeric_date (start + hour) * 10 ^ 9
      → t < numeric_date (n + hour) * 10 ^ 9
  fresh_at start t n h k = omega arith

  module _ (verification_key : Bytes) (start t : Time)
      (pair : lib.is_key_pair verification_key signature_key ≡ true)
      (clock : (i : ℕ) → start ≤ time_now i)
      (in_time : t < numeric_date (start + hour) * 10 ^ 9) where
    issue_tokens-AreTokensOf :
        (i : ℕ) (us : List SetupUser) (tokens : List Bytes)
        → issue_tokens i us ≡ ok tokens
        → AreTokensOf verification_key t us tokens
    unfolding issue_tokens AreTokensOf
    issue_tokens-AreTokensOf i [] tokens e =
        subst (AreTokensOf verification_key t []) (ok_value e) tt
    issue_tokens-AreTokensOf i (u ∷ us) tokens e =
        let issue = issue_token lib signature_key (uuid_new i) (time_now i) u.id in
        let (token, e0, e1) = >>=-eq-ok (wrap_result "GenerateAuthTokens" issue) _ tokens e in
        let (rest, e2, e3) = >>=-eq-ok (issue_tokens (i + 1) us) _ tokens e1 in
        subst (AreTokensOf verification_key t (u ∷ us)) (ok_value e3) (
          authenticate_token-issue_token lib verification_key signature_key (uuid_new i)
              (time_now i) t u.id token pair (wrap_result-eq-ok "GenerateAuthTokens" token issue e0)
              (fresh_at start t (time_now i) (clock i) in_time),
          issue_tokens-AreTokensOf (i + 1) us rest e2,
        )

    -- If GenerateAuthTokens returns tokens, then there are as many as users, and AuthenticateToken
    -- accepts each, with the other key of the pair, as that of the user at its index, at every time
    -- before the second to which an hour after the start of the run was cut.
    pub generate_auth_tokens-AreTokensOf :
        (us : List SetupUser) (tokens : List Bytes)
        → generate_auth_tokens us ≡ ok tokens
        → AreTokensOf verification_key t us tokens
    unfolding generate_auth_tokens
    generate_auth_tokens-AreTokensOf us tokens e = issue_tokens-AreTokensOf 0 us tokens e
