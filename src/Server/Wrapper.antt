-- ===== src/Server/Wrapper.antt =====
-- HandlerWithOptions of api/merch/merch.gen.go with all its options, and the errors of parameters.
-- A base router that has other patterns is left out.
pub mod Served
use Prim.Native.String
use merch.Base.{
  suc, String, ◌≡◌, refl, Bool, true, false, Option, none, some, List, [], ◌∷◌, ◌++◌, str_eq,
  if◌then◌else◌,
}
use merch.Base.Int.{ℤ, pos, negsuc}
use merch.Go.Decimal.{itoa}
use merch.Go.Texts.{text}
use merch.Postgres.Schema.{Uuid, Bytes}
use merch.Postgres.Session.{Env}
use merch.Users.Hashing.{PasswordHasher}
use merch.Auth.Claims.{Libraries}
use merch.Server.Responses.{plain, visit_get_api_buy_item}
use merch.Server.Handlers.{get_api_buy_item}
use merch.Server.Middleware.{
  Decoded, decoded, undecodable, Request, HttpAction, respond, serve_request_error,
}
use merch.Server.Router.{
  Route, auth, health, info, send_coin, not_found, method_not_allowed, buy, route, with_item,
  visited, dispatch,
}

-- A parameter's name, and the text of the error that is wrapped.
pub data ParamError : Type 0 where
  unescaped_cookie : String → String → ParamError
  unmarshaling : String → String → ParamError
  required : String → ParamError
  required_header : String → String → ParamError
  invalid_format : String → String → ParamError
  -- and how many values there are
  too_many_values : String → ℤ → ParamError

infixl 60 ◌<>◌
abbrev ◌<>◌ : String → String → String
a <> b = String.◌++◌ a b

-- %d
abbrev decimal : ℤ → String
decimal (pos n) = text (itoa n)
decimal (negsuc n) = "-" <> text (itoa (suc n))

-- their methods Error
unfoldable pub error_text : ParamError → String
error_text (unescaped_cookie name e) = "error unescaping cookie parameter '" <> name <> "'"
error_text (unmarshaling name e) = "Error unmarshaling parameter " <> name <> " as JSON: " <> e
error_text (required name) = "Query argument " <> name <> " is required, but not found"
error_text (required_header name e) = "Header parameter " <> name <> " is required, but not found"
error_text (invalid_format name e) = "Invalid format for parameter " <> name <> ": " <> e
error_text (too_many_values name count) =
    "Expected one value for " <> name <> ", got " <> decimal count

-- their methods Unwrap; two of the types have none
unfoldable pub unwrap : ParamError → Option String
unwrap (unescaped_cookie name e) = some e
unwrap (unmarshaling name e) = some e
unwrap (required name) = none
unwrap (required_header name e) = some e
unwrap (invalid_format name e) = some e
unwrap (too_many_values name count) = none

abbrev pub HttpHandler : Type 0
HttpHandler = Request → HttpAction

abbrev pub MiddlewareFunc : Type 0
MiddlewareFunc = HttpHandler → HttpHandler

-- for _, middleware := range siw.HandlerMiddlewares
unfoldable pub wrapped_in : List MiddlewareFunc → HttpHandler → HttpHandler
wrapped_in [] handler = handler
wrapped_in (middleware ∷ ms) handler = wrapped_in ms (middleware handler)

pub record ServerInterface : Type 0 where
  pub on_auth : HttpHandler
  pub on_buy_item : String → HttpHandler
  pub on_health : HttpHandler
  pub on_info : HttpHandler
  pub on_send_coin : HttpHandler

-- The base URL is split at its slashes; `error_handler_func` gets the error's text.
pub record StdHttpServerOptions : Type 0 where
  pub base_url : List String
  pub middlewares : List MiddlewareFunc
  pub error_handler_func : Option (ParamError → HttpAction)

-- http.Error(w, err.Error(), http.StatusBadRequest)
abbrev pub error_handler_or_default : Option (ParamError → HttpAction) → ParamError → HttpAction
error_handler_or_default none e = respond 400 (plain (error_text e))
error_handler_or_default (some f) e = f e

-- the path after the base URL
unfoldable pub after_base : List String → List String → Option (List String)
after_base [] path = some path
after_base (b ∷ bs) [] = none
after_base (b ∷ bs) (p ∷ path) = let rest = after_base bs path in if str_eq b p then rest else none

abbrev pub route_after : String → Option (List String) → Option Route
route_after method none = none
route_after method (some path) = some (route method path)

-- `bind_item` is runtime.BindStyledParameterWithOptions for the path parameter.
module _ (bind_item : String → Decoded String) (si : ServerInterface)
    (options : StdHttpServerOptions) where
  -- ServerInterfaceWrapper.GetAPIBuyItem
  unfoldable pub bound_item : Decoded String → HttpHandler
  bound_item (decoded item) r = wrapped_in options.middlewares (si.on_buy_item item) r
  bound_item (undecodable e) r =
      error_handler_or_default options.error_handler_func (invalid_format "item" e)

  unfoldable pub on_route : Option Route → HttpHandler
  unfolding bound_item
  on_route none r = respond 404 (plain "404 page not found")
  on_route (some auth) r = wrapped_in options.middlewares si.on_auth r
  on_route (some (buy segment)) r = bound_item (bind_item segment) r
  on_route (some health) r = wrapped_in options.middlewares si.on_health r
  on_route (some info) r = wrapped_in options.middlewares si.on_info r
  on_route (some send_coin) r = wrapped_in options.middlewares si.on_send_coin r
  on_route (some not_found) r = respond 404 (plain "404 page not found")
  on_route (some method_not_allowed) r = respond 405 (plain "Method Not Allowed")

  unfoldable pub handler_with_options : HttpHandler
  unfolding on_route
  handler_with_options r = on_route (route_after r.method (after_base options.base_url r.path)) r

-- The middleware that is registered last is the outermost.
pub wrapped_in-append :
    (ms ns : List MiddlewareFunc) (handler : HttpHandler)
    → wrapped_in (ms ++ ns) handler ≡ wrapped_in ns (wrapped_in ms handler)
unfolding wrapped_in
wrapped_in-append [] ns handler = refl
wrapped_in-append (m ∷ ms) ns handler = wrapped_in-append ms ns (m handler)
