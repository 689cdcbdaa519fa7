-- ===== src/Server/Serving.antt =====
-- The server's requests, one after the other, and the tables.
use merch.Base.{
  String, Bool, Option, true, false, none, some, List, [], ◌∷◌, if◌then◌else◌, ◌||◌, not,
}
use merch.Go.Errors.{Result, ok, err, panic}
use merch.Postgres.Schema.{Uuid, Bytes}
use merch.Postgres.Session.{Env, World}
use merch.Postgres.Pool.{OthersKeep}
use merch.Postgres.Keeping.{Keeps}
use merch.Users.Hashing.{PasswordHasher}
use merch.Ledger.Invariant.{IsConsistent}
use merch.Auth.Claims.{Libraries}
use merch.Auth.Password.{Data}
use merch.Auth.Tokens.{authenticate_token}
use merch.Server.Responses.{
  visit_post_api_auth, visit_get_api_buy_item, visit_get_api_health, visit_get_api_info,
  visit_post_api_send_coin,
}
use merch.Server.Handlers.{post_api_auth, get_api_buy_item, post_api_send_coin, get_api_health}
use merch.Server.Info.{get_api_info}
use merch.Server.Middleware.{
  equal_fold, bearer, cut_space, serve_request_error, no_header, Decoded, decoded, undecodable,
  Request, HttpAction, is_open, admit, check_scheme, check_header, authentication,
}
use merch.Server.Router.{
  Route, auth, health, info, send_coin, not_found, method_not_allowed, buy, with_body, with_item,
  dispatch, route, serve, serve_all,
}
use merch.Server.Consistency.{
  post_api_auth-Keeps, get_api_buy_item-Keeps, post_api_send_coin-Keeps, get_api_info-Keeps,
  visited-Keeps,
}

with_body-Keeps :
    {A : Type 0} (b : Decoded A) (f : A → HttpAction)
    → ((a : A) → Keeps IsConsistent (f a))
    → Keeps IsConsistent (with_body b f)
unfolding serve_request_error
with_body-Keeps (decoded a) f h = h a
with_body-Keeps (undecodable m) f h = λ _ c. c

with_item-Keeps :
    (b : Decoded String) (f : String → HttpAction)
    → ((a : String) → Keeps IsConsistent (f a))
    → Keeps IsConsistent (with_item b f)
unfolding serve_request_error
with_item-Keeps (decoded a) f h = h a
with_item-Keeps (undecodable m) f h = λ _ c. c

either :
    {R : Type 0} (b : Bool) (x y : R × World)
    → IsConsistent x.1.tables
    → IsConsistent y.1.tables
    → IsConsistent (if b then x else y).1.tables
either true x y h k = h
either false x y h k = k

-- The middleware itself sends no request to the database.
module _ (lib : Libraries) (verification_key : Bytes) (next : Option Uuid → HttpAction)
    (h : (context : Option Uuid) → Keeps IsConsistent (next context)) where
  admit-Keeps : (r : Result Data) → Keeps IsConsistent (admit lib verification_key r next)
  unfolding admit
  admit-Keeps (ok d) = h (some d.user_id)
  admit-Keeps (err e) = λ _ c. c
  admit-Keeps panic = λ _ c. c

  check_scheme-Keeps :
      (env : Env) (cut : Bytes × Bytes × Bool)
      → Keeps IsConsistent (check_scheme lib verification_key env cut next)
  unfolding check_scheme
  check_scheme-Keeps env (scheme, params, found) w c =
      either (not (equal_fold scheme bearer) || not found) _ _ c
        (admit-Keeps (authenticate_token lib verification_key (env.now w.tick) params) w c)

  check_header-Keeps :
      (env : Env) (header : Bytes)
      → Keeps IsConsistent (check_header lib verification_key env header next)
  unfolding check_header
  check_header-Keeps env header w c =
      either (no_header header) _ _ c (check_scheme-Keeps env (cut_space header) w c)

  authentication-Keeps :
      (env : Env) (r : Request)
      → Keeps IsConsistent (authentication lib verification_key env next r)
  unfolding authentication
  authentication-Keeps env r w c =
      either (is_open r) _ _ (h none w c) (check_header-Keeps env r.authorization w c)

module _ (collate : String → String → Bool) (env : Env) (ph : PasswordHasher) (lib : Libraries)
    (verification_key signature_key : Bytes) (bind_item : String → Decoded String)
    (keep : OthersKeep IsConsistent env) where
  dispatch-Keeps :
      (r : Request) (t : Route) (context : Option Uuid)
      → Keeps IsConsistent
          (dispatch collate env ph lib verification_key signature_key bind_item r t context)
  unfolding dispatch get_api_health
  dispatch-Keeps r auth context = with_body-Keeps r.auth_body _ (λ body.
      visited-Keeps collate env ph lib verification_key signature_key bind_item keep
        visit_post_api_auth (post_api_auth env ph lib signature_key body)
        (post_api_auth-Keeps collate env ph lib verification_key signature_key bind_item keep body))
  dispatch-Keeps r (buy segment) context = with_item-Keeps (bind_item segment) _ (λ item.
      visited-Keeps collate env ph lib verification_key signature_key bind_item keep
        visit_get_api_buy_item (get_api_buy_item env context item)
        (get_api_buy_item-Keeps collate env ph lib verification_key signature_key bind_item keep
          context item))
  dispatch-Keeps r health context =
      visited-Keeps collate env ph lib verification_key signature_key bind_item keep
        visit_get_api_health get_api_health (λ _ c. c)
  dispatch-Keeps r info context =
      visited-Keeps collate env ph lib verification_key signature_key bind_item keep
        visit_get_api_info (get_api_info collate env context)
        (get_api_info-Keeps collate env ph lib verification_key signature_key bind_item keep
          context)
  dispatch-Keeps r send_coin context = with_body-Keeps r.send_coin_body _ (λ body.
      visited-Keeps collate env ph lib verification_key signature_key bind_item keep
        visit_post_api_send_coin (post_api_send_coin env context body)
        (post_api_send_coin-Keeps collate env ph lib verification_key signature_key bind_item keep
          context body))
  dispatch-Keeps r not_found context = λ _ c. c
  dispatch-Keeps r method_not_allowed context = λ _ c. c

  pub serve-IsConsistent :
      (r : Request) (w : World)
      → IsConsistent w.tables
      → IsConsistent
          (serve collate env ph lib verification_key signature_key bind_item r w).1.tables
  unfolding serve
  serve-IsConsistent r =
      authentication-Keeps lib verification_key _ (dispatch-Keeps r (route r.method r.path)) env r

  -- If the tables are consistent and other clients keep them so, then they are consistent after the
  -- server has answered any list of requests, one after the other, whichever requests to the
  -- database are lost and whatever the hasher, the token library and the binding of the path
  -- parameter return. Consistent means: ids and usernames are distinct, every balance and price is
  -- from 0 to the greatest `integer`, and for each id the balance and the coins sent and spent add
  -- up to the grant at registration and the coins received.
  pub serve_all-IsConsistent :
      (rs : List Request) (w : World)
      → IsConsistent w.tables
      → IsConsistent
          (serve_all collate env ph lib verification_key signature_key bind_item rs w).tables
  unfolding serve_all
  serve_all-IsConsistent [] w c = c
  serve_all-IsConsistent (r ∷ rs) w c = serve_all-IsConsistent rs _ (serve-IsConsistent r w c)
