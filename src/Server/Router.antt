-- ===== src/Server/Router.antt =====
-- The routes and the strict handler of api/merch/merch.gen.go, and the handler that
-- `newHTTPServer` of cmd/server/main.go puts together.
use Prim.Native.String
use merch.Base.{
  String, Bool, Option, none, some, List, [], ◌∷◌, str_eq, if◌then◌else◌, ◌||◌, ◌&&◌, not,
}
use merch.Go.Errors.{Result, ok, err, panic}
use merch.Postgres.Schema.{Uuid, Bytes}
use merch.Postgres.Session.{Env, World}
use merch.Users.Hashing.{PasswordHasher}
use merch.Auth.Claims.{Libraries}
use merch.Server.Responses.{
  Response, plain, visit_post_api_auth, visit_get_api_buy_item, visit_get_api_health,
  visit_get_api_info, visit_post_api_send_coin,
}
use merch.Server.Handlers.{post_api_auth, get_api_buy_item, post_api_send_coin, get_api_health}
use merch.Server.Info.{get_api_info}
use merch.Server.Middleware.{
  Decoded, decoded, undecodable, Request, HttpAction, respond, serve_request_error,
  serve_response_error, authentication,
}

-- How a handler's response or error reaches the client.
unfoldable pub visited : {A : Type 0} → (A → Response) → Result A × World → Option Response × World
unfolding serve_response_error
visited visit (ok a, w) = (some (visit a), w)
visited visit (err e, w) = serve_response_error e w
visited visit (panic, w) = (none, w)

abbrev pub with_body : {A : Type 0} → Decoded A → (A → HttpAction) → HttpAction
with_body (decoded a) f w = f a w
with_body (undecodable message) f w =
    serve_request_error (String.◌++◌ "can't decode JSON body: " message) w

abbrev pub with_item : Decoded String → (String → HttpAction) → HttpAction
with_item (decoded item) f w = f item w
with_item (undecodable message) f w =
    serve_request_error (String.◌++◌ "Invalid format for parameter item: " message) w

-- The patterns that HandlerWithOptions registers; a GET pattern takes HEAD requests too, and
-- `{item}` stands for a segment that is not empty.
pub data Route : Type 0 where
  auth health info send_coin not_found method_not_allowed : Route
  buy : String → Route

unfoldable pub is_get : String → Bool
is_get m = str_eq m "GET" || str_eq m "HEAD"

unfoldable pub for_method : Bool → Route → Route
for_method allowed r = if allowed then r else method_not_allowed

unfoldable pub route : String → List String → Route
unfolding is_get for_method
route m (a ∷ b ∷ []) =
    if str_eq a "api"
    then if str_eq b "auth"
      then for_method (str_eq m "POST") auth
      else if str_eq b "health"
      then for_method (is_get m) health
      else if str_eq b "info"
      then for_method (is_get m) info
      else if str_eq b "sendCoin"
      then for_method (str_eq m "POST") send_coin
      else not_found
    else not_found
route m (a ∷ b ∷ item ∷ []) =
    if str_eq a "api"
    then if str_eq b "buy" && not (str_eq item "")
      then for_method (is_get m) (buy item)
      else not_found
    else not_found
route m _ = not_found

-- `bind_item` is runtime.BindStyledParameterWithOptions for the path parameter.
module _ (collate : String → String → Bool) (env : Env) (ph : PasswordHasher) (lib : Libraries)
    (verification_key signature_key : Bytes) (bind_item : String → Decoded String) where
  -- the strict handler's method of each route
  unfoldable pub dispatch : Request → Route → Option Uuid → HttpAction
  unfolding visited
  dispatch r auth context w =
      with_body r.auth_body
        (λ body v. visited visit_post_api_auth (post_api_auth env ph lib signature_key body v)) w
  dispatch r (buy segment) context w =
      with_item (bind_item segment)
        (λ item v. visited visit_get_api_buy_item (get_api_buy_item env context item v)) w
  dispatch r health context w = visited visit_get_api_health (get_api_health w)
  dispatch r info context w = visited visit_get_api_info (get_api_info collate env context w)
  dispatch r send_coin context w =
      with_body r.send_coin_body
        (λ body v. visited visit_post_api_send_coin (post_api_send_coin env context body v)) w
  dispatch r not_found context w = respond 404 (plain "404 page not found") w
  dispatch r method_not_allowed context w = respond 405 (plain "Method Not Allowed") w

  -- the server's handler: authentication around the router
  unfoldable pub serve : Request → HttpAction
  serve r = authentication lib verification_key env (dispatch r (route r.method r.path)) r

  -- requests that the server answers one after the other
  unfoldable pub serve_all : List Request → World → World
  serve_all [] w = w
  serve_all (r ∷ rs) w = serve_all rs (serve r w).1
