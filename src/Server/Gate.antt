-- ===== src/Server/Gate.antt =====
-- Which requests get past the authentication middleware.
use merch.Base.{
  String, ◌≡◌, refl, sym, ◌⊎◌, inl, inr, Bool, true, false, ◌&&◌, ◌||◌, Option, none, some, List,
  [], ◌∷◌, str_eq, eq_iff, subst, Bool-cases, arith,
}
use merch.Go.Errors.{Result, ok, err, panic}
use merch.Postgres.Schema.{Uuid, Bytes}
use merch.Postgres.Session.{Env, World}
use merch.Users.Hashing.{PasswordHasher}
use merch.Auth.Claims.{Libraries}
use merch.Auth.Password.{Data}
use merch.Auth.Tokens.{authenticate_token}
use merch.Auth.Acceptance.{IsAccepted, authenticate_token-IsAccepted}
use merch.Server.Responses.{Body, Response, header_error}
use merch.Server.Middleware.{
  Decoded, Request, HttpAction, path_is, cut_space, equal_fold, bearer, no_header, is_open, admit,
  check_scheme, check_header, authentication,
}
use merch.Server.Router.{auth, health, route, is_get, for_method, dispatch, serve}

-- The request carries the token of `d`, as "Bearer", a space and the token.
pub record HasToken (lib : Libraries) (key : Bytes) (env : Env) (w : World) (header : Bytes)
    (d : Data) : Type 0 where
  pub scheme : Bytes
  pub params : Bytes
  pub cut : cut_space header ≡ (scheme, params, true)
  pub is_bearer : equal_fold scheme bearer ≡ true
  pub accepted : IsAccepted lib key (env.now w.tick) params d

-- 401, or no answer at all, and the database has not been asked
abbrev pub IsRefused : World → Option Response × World → Type 0
IsRefused w x =
    (x.1 ≡ w) × ((x.0 ≡ none) ⊎ ((b : Body) × (x.0 ≡ some (record { status = 401; body = b }))))

module _ (lib : Libraries) (key : Bytes) (env : Env) (next : Option Uuid → HttpAction)
    (w : World) where
  abbrev IsGated : Bytes → Option Response × World → Type 0
  IsGated header x =
      ((d : Data) × HasToken lib key env w header d × (x ≡ next (some d.user_id) w)) ⊎ IsRefused w x

  admit-IsGated :
      (header scheme params : Bytes)
      → cut_space header ≡ (scheme, params, true)
      → equal_fold scheme bearer ≡ true
      → (r : Result Data) → authenticate_token lib key (env.now w.tick) params ≡ r
      → IsGated header (admit lib key r next w)
  unfolding admit
  admit-IsGated header scheme params c b (ok d) e = inl (
    d,
    (record {
      scheme = scheme;
      params = params;
      cut = c;
      is_bearer = b;
      accepted = authenticate_token-IsAccepted lib key (env.now w.tick) params d e;
    }),
    refl,
  )
  admit-IsGated header scheme params c b (err x) e = inr (refl, inr (header_error x, refl))
  admit-IsGated header scheme params c b panic e = inr (refl, inl refl)

  check_scheme-IsGated :
      (header : Bytes) (cut : Bytes × Bytes × Bool)
      → cut_space header ≡ cut
      → IsGated header (check_scheme lib key env cut next w)
  unfolding check_scheme
  check_scheme-IsGated header (scheme, params, true) c =
      elim (Bool-cases (equal_fold scheme bearer)) [
        | inl same ↦
            rw (same, check_scheme)
              (admit-IsGated header scheme params c same
                (authenticate_token lib key (env.now w.tick) params) refl)
        | inr other ↦ rw (other, check_scheme) (inr (refl, inr (_, refl)))
      ]
  check_scheme-IsGated header (scheme, params, false) c =
      elim (Bool-cases (equal_fold scheme bearer)) [
        | inl same ↦ rw (same, check_scheme) (inr (refl, inr (_, refl)))
        | inr other ↦ rw (other, check_scheme) (inr (refl, inr (_, refl)))
      ]

  authentication-IsGated :
      (r : Request)
      → is_open r ≡ false
      → IsGated r.authorization (authentication lib key env next r w)
  unfolding authentication check_header
  authentication-IsGated r closed = elim (Bool-cases (no_header r.authorization)) [
    | inl empty ↦ rw (closed, authentication, empty) (inr (refl, inr (_, refl)))
    | inr given ↦
        rw (closed, authentication, given)
          (check_scheme-IsGated r.authorization (cut_space r.authorization) refl)
  ]

health-ne-auth : (b : String) → str_eq b "health" ≡ true → str_eq b "auth" ≡ false
health-ne-auth b e = subst (λ x. str_eq x "auth" ≡ false) (sym ((eq_iff b "health").0 e)) refl

open_path :
    (m : String) (p : List String)
    → (str_eq m "POST" && path_is p ("api" ∷ "auth" ∷ []))
        || (str_eq m "GET" && path_is p ("api" ∷ "health" ∷ []))
      ≡ true
    → (route m p ≡ auth) ⊎ (route m p ≡ health)
unfolding path_is route is_get for_method
open_path m [] e = ground arith
open_path m (a ∷ []) e = ground arith
open_path m (a ∷ b ∷ []) e = ground (arith, health-ne-auth b)
open_path m (a ∷ b ∷ c ∷ p) e = ground arith

-- A request that the middleware lets through without a token goes to the handler of authentication
-- or to that of health, and to no other.
pub is_open-route :
    (r : Request)
    → is_open r ≡ true
    → (route r.method r.path ≡ auth) ⊎ (route r.method r.path ≡ health)
unfolding is_open
is_open-route r e = open_path r.method r.path e

module _ (collate : String → String → Bool) (env : Env) (ph : PasswordHasher) (lib : Libraries)
    (verification_key signature_key : Bytes) (bind_item : String → Decoded String) where
  -- A request that is not for one of the two open endpoints either carries a token that the
  -- authenticator accepts for a user, after a scheme that folds to "Bearer" and a space, and is
  -- then handled as that user's request; or it is answered with status 401, or not at all, without
  -- a request to the database.
  pub serve-IsGated :
      (r : Request) (w : World)
      → is_open r ≡ false
      → ((d : Data) × HasToken lib verification_key env w r.authorization d
          × (serve collate env ph lib verification_key signature_key bind_item r w
              ≡ dispatch collate env ph lib verification_key signature_key bind_item r
                  (route r.method r.path)
                  (some d.user_id)
                  w))
        ⊎ IsRefused w (serve collate env ph lib verification_key signature_key bind_item r w)
  unfolding serve
  serve-IsGated r w closed = authentication-IsGated lib verification_key env _ w r closed
