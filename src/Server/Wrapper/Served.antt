-- ===== src/Server/Wrapper/Served.antt =====
-- What `newHTTPServer` of cmd/server/main.go makes of HandlerWithOptions.
use merch.Base.{String, Bool, ◌≡◌, refl, Option, some, []}
use merch.Postgres.Schema.{Uuid, Bytes}
use merch.Postgres.Session.{Env, World}
use merch.Users.Hashing.{PasswordHasher}
use merch.Auth.Claims.{Libraries}
use merch.Server.Responses.{visit_get_api_buy_item}
use merch.Server.Handlers.{get_api_buy_item}
use merch.Server.Middleware.{
  Decoded, decoded, undecodable, Request, HttpAction, serve_request_error,
}
use merch.Server.Router.{
  Route, auth, health, info, send_coin, not_found, method_not_allowed, buy, route, visited,
  dispatch,
}
use merch.Server.Wrapper.{
  ServerInterface, StdHttpServerOptions, error_text, wrapped_in, after_base, bound_item, on_route,
  handler_with_options,
}

-- no middlewares and no base URL
abbrev pub server_options : StdHttpServerOptions
server_options = record {
  base_url = [];
  middlewares = [];
  error_handler_func = some (λ e. serve_request_error (error_text e));
}

module _ (collate : String → String → Bool) (env : Env) (ph : PasswordHasher) (lib : Libraries)
    (verification_key signature_key : Bytes) (bind_item : String → Decoded String)
    (context : Option Uuid) where
  abbrev run : Request → Route → HttpAction
  run r x = dispatch collate env ph lib verification_key signature_key bind_item r x context

  -- NewStrictHandlerWithOptions, for a request with this context
  abbrev pub strict_handler : ServerInterface
  strict_handler = record {
    on_auth = λ r. run r auth;
    on_buy_item = λ item r w. visited visit_get_api_buy_item (get_api_buy_item env context item w);
    on_health = λ r. run r health;
    on_info = λ r. run r info;
    on_send_coin = λ r. run r send_coin;
  }

  bound :
      (d : Decoded String) (segment : String) (r : Request) (w : World)
      → bind_item segment ≡ d
      → bound_item bind_item strict_handler server_options d r w ≡ run r (buy segment) w
  unfolding bound_item wrapped_in dispatch error_text
  bound (decoded item) segment r w e = rw e refl
  bound (undecodable m) segment r w e = rw e refl

  routed :
      (x : Route) (r : Request) (w : World)
      → on_route bind_item strict_handler server_options (some x) r w ≡ run r x w
  unfolding on_route wrapped_in dispatch
  routed auth r w = refl
  routed health r w = refl
  routed info r w = refl
  routed send_coin r w = refl
  routed not_found r w = refl
  routed method_not_allowed r w = refl
  routed (buy segment) r w = bound (bind_item segment) segment r w refl

  -- With the options that newHTTPServer sets, no middlewares, no base URL and serveRequestError,
  -- the handler that HandlerWithOptions makes of the strict handler answers every request as the
  -- dispatch of the request's route does, an item that cannot be bound included.
  pub handler_with_options-dispatch :
      (r : Request) (w : World)
      → handler_with_options bind_item strict_handler server_options r w
        ≡ run r (route r.method r.path) w
  unfolding handler_with_options after_base
  handler_with_options-dispatch r w = routed (route r.method r.path) r w
