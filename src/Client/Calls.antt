-- ===== src/Client/Calls.antt =====
-- The methods of Client and ClientWithResponses in api/merch/merch.gen.go.
use merch.Base.{String, Option, none, some, List, [], ◌∷◌}
use merch.Go.Errors.{Result, panic}
use merch.Postgres.Schema.{Bytes}
use merch.Postgres.Session.{Action, pure, lift, ◌>>=◌}
use merch.Server.Responses.{AuthRequest, SendCoinRequest}
use merch.Client.{HttpRequest, HttpResponse, RequestEditorFn, HttpRequestDoer, Client}
use merch.Client.Payloads.{JsonLibrary}
use merch.Client.Requests.{
  HttpLibrary, new_post_api_auth_request_with_body, new_post_api_auth_request,
  new_get_api_buy_item_request, new_get_api_health_request, new_get_api_info_request,
  new_post_api_send_coin_request_with_body, new_post_api_send_coin_request,
}
use merch.Client.Replies.{AuthReply, BuyItemReply, HealthReply, InfoReply, SendCoinReply}
use merch.Client.Parsers.{
  parse_post_api_auth_response, parse_get_api_buy_item_response, parse_get_api_health_response,
  parse_get_api_info_response, parse_post_api_send_coin_response,
}

-- for _, r := range editors
unfoldable pub edited : List RequestEditorFn → HttpRequest → Action HttpRequest
edited [] req = pure req
edited (r ∷ rs) req = r req >>= edited rs

unfoldable pub apply_editors : Client → HttpRequest → List RequestEditorFn → Action HttpRequest
unfolding edited
apply_editors c req additional_editors = edited c.request_editors req >>= edited additional_editors

-- c.Client.Do(req); a nil interface panics
abbrev pub do_request : Option HttpRequestDoer → HttpRequest → Action HttpResponse
do_request none req w = (panic, w)
do_request (some doer) req w = doer req w

-- what every method does with its request
unfoldable pub send : Client → Result HttpRequest → List RequestEditorFn → Action HttpResponse
unfolding apply_editors
send c built req_editors = do
  req ← lift built
  req ← apply_editors c req req_editors
  do_request c.client req

module _ (http : HttpLibrary) (json : JsonLibrary) where
  unfoldable pub call_post_api_auth_with_body :
      Client → Bytes → Option Bytes → List RequestEditorFn → Action HttpResponse
  call_post_api_auth_with_body c content_type body req_editors =
      send c (new_post_api_auth_request_with_body http c.server content_type body) req_editors

  unfoldable pub call_post_api_auth :
      Client → AuthRequest → List RequestEditorFn → Action HttpResponse
  call_post_api_auth c body req_editors =
      send c (new_post_api_auth_request http json c.server body) req_editors

  unfoldable pub call_get_api_buy_item :
      Client → String → List RequestEditorFn → Action HttpResponse
  call_get_api_buy_item c item req_editors =
      send c (new_get_api_buy_item_request http c.server item) req_editors

  unfoldable pub call_get_api_health : Client → List RequestEditorFn → Action HttpResponse
  call_get_api_health c req_editors = send c (new_get_api_health_request http c.server) req_editors

  unfoldable pub call_get_api_info : Client → List RequestEditorFn → Action HttpResponse
  call_get_api_info c req_editors = send c (new_get_api_info_request http c.server) req_editors

  unfoldable pub call_post_api_send_coin_with_body :
      Client → Bytes → Option Bytes → List RequestEditorFn → Action HttpResponse
  call_post_api_send_coin_with_body c content_type body req_editors =
      send c (new_post_api_send_coin_request_with_body http c.server content_type body) req_editors

  unfoldable pub call_post_api_send_coin :
      Client → SendCoinRequest → List RequestEditorFn → Action HttpResponse
  call_post_api_send_coin c body req_editors =
      send c (new_post_api_send_coin_request http json c.server body) req_editors

  unfoldable pub post_api_auth_with_body_with_response :
      Client → Bytes → Option Bytes → List RequestEditorFn → Action AuthReply
  post_api_auth_with_body_with_response c content_type body req_editors = do
    rsp ← call_post_api_auth_with_body c content_type body req_editors
    lift (parse_post_api_auth_response json rsp)

  unfoldable pub post_api_auth_with_response :
      Client → AuthRequest → List RequestEditorFn → Action AuthReply
  post_api_auth_with_response c body req_editors = do
    rsp ← call_post_api_auth c body req_editors
    lift (parse_post_api_auth_response json rsp)

  unfoldable pub get_api_buy_item_with_response :
      Client → String → List RequestEditorFn → Action BuyItemReply
  get_api_buy_item_with_response c item req_editors = do
    rsp ← call_get_api_buy_item c item req_editors
    lift (parse_get_api_buy_item_response json rsp)

  unfoldable pub get_api_health_with_response : Client → List RequestEditorFn → Action HealthReply
  get_api_health_with_response c req_editors = do
    rsp ← call_get_api_health c req_editors
    lift (parse_get_api_health_response json rsp)

  unfoldable pub get_api_info_with_response : Client → List RequestEditorFn → Action InfoReply
  get_api_info_with_response c req_editors = do
    rsp ← call_get_api_info c req_editors
    lift (parse_get_api_info_response json rsp)

  unfoldable pub post_api_send_coin_with_body_with_response :
      Client → Bytes → Option Bytes → List RequestEditorFn → Action SendCoinReply
  post_api_send_coin_with_body_with_response c content_type body req_editors = do
    rsp ← call_post_api_send_coin_with_body c content_type body req_editors
    lift (parse_post_api_send_coin_response json rsp)

  unfoldable pub post_api_send_coin_with_response :
      Client → SendCoinRequest → List RequestEditorFn → Action SendCoinReply
  post_api_send_coin_with_response c body req_editors = do
    rsp ← call_post_api_send_coin c body req_editors
    lift (parse_post_api_send_coin_response json rsp)
