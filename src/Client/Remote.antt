-- ===== src/Client/Remote.antt =====
-- The client's methods at the server: a call over the network is a call of the handler.
pub mod Opened
pub mod Authorized
use merch.Base.{
  ℕ, String, ◌≡◌, refl, sym, ◌∙◌, Bool, true, false, Option, none, some, List, [], ◌∷◌, ◌++◌, ap,
  not, str_eq,
}
use merch.Base.Lists.{filter}
use merch.Go.Errors.{Result, ok, err, panic}
use merch.Go.Strings.{codes}
use merch.Postgres.Schema.{Uuid, Bytes}
use merch.Postgres.Session.{Env, World, continue, lift}
use merch.Users.Hashing.{PasswordHasher}
use merch.Auth.Claims.{Libraries}
use merch.Auth.Password.{Data}
use merch.Auth.Tokens.{authenticate_token}
use merch.Server.Responses.{
  AuthRequest, SendCoinRequest, Response, PostApiAuthResponse, GetApiBuyItemResponse,
  GetApiHealthResponse, GetApiInfoResponse, PostApiSendCoinResponse, visit_post_api_auth,
  visit_get_api_buy_item, visit_get_api_health, visit_get_api_info, visit_post_api_send_coin,
}
use merch.Server.Handlers.{post_api_auth, get_api_buy_item, post_api_send_coin, get_api_health}
use merch.Server.Info.{get_api_info}
use merch.Server.Middleware.{
  Decoded, decoded, Request, HttpAction, is_open, path_is, cut_space, equal_fold, bearer,
  check_scheme, check_header, admit, authentication, serve_response_error,
}
use merch.Server.Router.{route, is_get, for_method, dispatch, serve, visited}
use merch.Client.{HttpRequest, HttpResponse, Client, with_slash}
use merch.Client.Payloads.{JsonLibrary}
use merch.Client.Requests.{
  HttpLibrary, relative, add_content_type, operation_request, new_post_api_auth_request_with_body,
  new_post_api_auth_request, new_get_api_buy_item_request, new_get_api_health_request,
  new_get_api_info_request, new_post_api_send_coin_request_with_body,
  new_post_api_send_coin_request,
}
use merch.Client.Replies.{AuthReply, BuyItemReply, HealthReply, InfoReply, SendCoinReply}
use merch.Client.Parsers.{parse_post_api_auth_response, parse_post_api_send_coin_response}
use merch.Client.Calls.{
  edited, apply_editors, send, call_post_api_auth, post_api_auth_with_response,
  call_post_api_send_coin, post_api_send_coin_with_response,
}
use merch.Client.Network.{
  Wire, header_get, header_set, authorization, to_client, to_server, connection_closed, answered,
  network, connected, IsReachable,
}
use merch.Client.RoundTrip.{parse-auth, parse-auth_failed, parse-send_coin, parse-send_coin_failed}
use merch.Client.Expected.{
  ErrorsCross, TokenCrosses, failed, auth_reply, auth_failed, send_coin_reply, send_coin_failed,
}

-- What a caller gets from the handler's result: the reply, the reply of status 500, or an error
-- where the handler has panicked.
abbrev pub returned :
    {A B : Type 0} → JsonLibrary → Wire → (A → B) → B → Result A × World → Result B × World
returned json wire reply failure (ok a, w) = (ok (reply a), w)
returned json wire reply failure (err e, w) = (ok failure, w)
returned json wire reply failure (panic, w) = (err (connection_closed json wire), w)

abbrev pub OkCrosses : {A : Type 0} → (A → Type 0) → Result A → Type 0
OkCrosses P (ok a) = P a
OkCrosses P _ = Unit

pub all_cross :
    {A : Type 0} (P Q : A → Type 0) (r : Result A)
    → ((a : A) → P a → Q a)
    → OkCrosses P r
    → OkCrosses Q r
all_cross P Q (ok a) h e = h a e
all_cross P Q (err x) h e = tt
all_cross P Q panic h e = tt

pub cross : {A : Type 0} (Q : A → Type 0) (r : Result A) → ((a : A) → Q a) → OkCrosses Q r
cross Q (ok a) h = h a
cross Q (err x) h = tt
cross Q panic h = tt

abbrev pub plain_request : String → Bytes → Option Bytes → HttpRequest
plain_request method url body = record { method = method; url = url; header = []; body = body }

module _ (http : HttpLibrary) (json : JsonLibrary) (wire : Wire) where
  pub operation_request_lem :
      (method : String) (server path rel : Bytes) (segments : List String) (body : Option Bytes)
      → relative path ≡ ok rel
      → (r : IsReachable http wire server rel segments)
      → operation_request http method server path body
        ≡ ok (plain_request method (http.url_string r.target) body)
  unfolding operation_request relative
  operation_request_lem method server path rel segments body e r =
      rw (r.parsed, e, r.resolved) (r.requested method body)

  -- What a method makes of the answer to its request.
  pub returned_lem :
      {A B : Type 0} (visit : A → Response) (parse : HttpResponse → Result B) (reply : A → B)
      (failure : B) (x : Result A × World)
      → OkCrosses (λ a. parse (to_client json wire (visit a)) ≡ ok (reply a)) x.0
      → parse (to_client json wire failed) ≡ ok failure
      → continue (answered json wire (visited visit x)) (λ rsp. lift (parse rsp))
        ≡ returned json wire reply failure x
  unfolding visited answered serve_response_error
  returned_lem visit parse reply failure (ok a, w) h f = rw h refl
  returned_lem visit parse reply failure (err e, w) h f = rw f refl
  returned_lem visit parse reply failure (panic, w) h f = refl
