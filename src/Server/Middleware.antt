-- ===== src/Server/Middleware.antt =====
-- `Authentication` of cmd/server/auth.go, and the two error handlers of cmd/server/main.go.
use merch.Base.{
  ℕ, ◌+◌, String, Bool, true, false, ◌&&◌, ◌||◌, not, Option, none, some, List, [], ◌∷◌, ◌==◌, leb,
  str_eq, if◌then◌else◌,
}
use merch.Go.Errors.{Error, Result, ok, err, panic}
use merch.Postgres.Schema.{Uuid, Bytes}
use merch.Postgres.Session.{Env, World}
use merch.Auth.Claims.{Libraries}
use merch.Auth.Password.{Data}
use merch.Auth.Tokens.{authenticate_token}
use merch.Server.Responses.{AuthRequest, SendCoinRequest, Body, errors, header_error, Response}

-- What json.Decoder makes of a body as a value of a type: the value, or its error's text.
pub data Decoded (A : Type 0) : Type 0 where
  decoded : A → Decoded A
  undecodable : String → Decoded A

-- The path is split at its slashes; a header that is not there reads as the empty string.
pub record Request : Type 0 where
  pub method : String
  pub path : List String
  pub authorization : Bytes
  pub auth_body : Decoded AuthRequest
  pub send_coin_body : Decoded SendCoinRequest

-- An answer to a client, or none where the handler panics and net/http drops the connection.
abbrev pub HttpAction : Type 0
HttpAction = World → Option Response × World

abbrev pub respond : ℕ → Body → HttpAction
respond status body w = (some (record { status = status; body = body }), w)

unfoldable pub serve_request_error : String → HttpAction
serve_request_error message = respond 400 (errors message)

unfoldable pub serve_response_error : Error → HttpAction
serve_response_error e = respond 500 (errors "internal server error")

unfoldable pub path_is : List String → List String → Bool
path_is [] [] = true
path_is (a ∷ p) (b ∷ q) = str_eq a b && path_is p q
path_is [] (b ∷ q) = false
path_is (a ∷ p) [] = false

-- strings.Cut(s, " "): what stands before and after the first space, and whether there is one
unfoldable pub cut_space : Bytes → Bytes × Bytes × Bool
cut_space [] = ([], [], false)
cut_space (c ∷ s) =
    let (before, after, found) = cut_space s in
    if c == 32 then ([], s, true) else (c ∷ before, after, found)

to_lower : ℕ → ℕ
to_lower c = if leb 65 c && leb c 90 then c + 32 else c

-- strings.EqualFold against a word whose letters fold only to ASCII ones
unfoldable pub equal_fold : Bytes → Bytes → Bool
unfolding to_lower
equal_fold [] [] = true
equal_fold (a ∷ s) (b ∷ t) = to_lower a == to_lower b && equal_fold s t
equal_fold [] (b ∷ t) = false
equal_fold (a ∷ s) [] = false

abbrev pub bearer : Bytes
bearer = 66 ∷ 101 ∷ 97 ∷ 114 ∷ 101 ∷ 114 ∷ []

-- the endpoints that need no token
unfoldable pub is_open : Request → Bool
unfolding path_is
is_open r =
    (str_eq r.method "POST" && path_is r.path ("api" ∷ "auth" ∷ []))
    || (str_eq r.method "GET" && path_is r.path ("api" ∷ "health" ∷ []))

pub no_header : Bytes → Bool
no_header [] = true
no_header (c ∷ s) = false

module _ (lib : Libraries) (verification_key : Bytes) where
  -- the token's user goes into the context of the request
  unfoldable pub admit : Result Data → (Option Uuid → HttpAction) → HttpAction
  admit (ok auth_data) next w = next (some auth_data.user_id) w
  admit (err e) next w = respond 401 (header_error e) w
  admit panic next w = (none, w)

  unfoldable pub check_scheme : Env → Bytes × Bytes × Bool → (Option Uuid → HttpAction) → HttpAction
  unfolding admit
  check_scheme env (scheme, params, found) next w =
      if not (equal_fold scheme bearer) || not found
      then respond 401 (errors "invalid Authorization header scheme") w
      else admit (authenticate_token lib verification_key (env.now w.tick) params) next w

  unfoldable pub check_header : Env → Bytes → (Option Uuid → HttpAction) → HttpAction
  unfolding check_scheme no_header
  check_header env header next w =
      if no_header header
      then respond 401 (errors "empty Authorization header") w
      else check_scheme env (cut_space header) next w

  -- Authentication
  unfoldable pub authentication : Env → (Option Uuid → HttpAction) → Request → HttpAction
  unfolding check_header
  authentication env next r w =
      if is_open r then next none w else check_header env r.authorization next w
