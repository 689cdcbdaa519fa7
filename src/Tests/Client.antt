-- ===== src/Tests/Client.antt =====
-- The theorems on the client, with a text format, a network and the server.
use merch.Base.{◌≡◌, refl, none, some, [], ◌∷◌, ◌++◌}
use merch.Base.Int.{pos}
use merch.Go.Errors.{ok, wrap_result}
use merch.Go.Strings.{codes}
use merch.Auth.Password.{Data}
use merch.Server.Responses.{
  AuthRequest, SendCoinRequest, PostApiAuthResponse, GetApiBuyItemResponse, GetApiHealthResponse,
  GetApiInfoResponse, PostApiSendCoinResponse, visit_post_api_auth, visit_get_api_buy_item,
  visit_get_api_health, visit_get_api_info, visit_post_api_send_coin,
}
use merch.Server.Middleware.{decoded}
use merch.Client.{HttpResponse}
use merch.Client.Fields.{IsReadFrom, parse_post_api_auth_response-IsReadFrom}
use merch.Go.Substrings.{has_prefix, contains}
use merch.Client.RoundTrip.{parse-reply}
use merch.Tests.Data.{start, quiet, plain_hasher}
use merch.Client.Replies.{AuthReply}
use merch.Client.Parsers.{
  is_json, auth_case, parse_post_api_auth_response, parse_get_api_buy_item_response,
  parse_get_api_health_response, parse_get_api_info_response, parse_post_api_send_coin_response,
}
use merch.Tests.Tokens.{one_token}
use merch.Client.Remote.{returned, cross}
use merch.Client.Remote.Authorized.{remote_send_coin}
use merch.Client.Remote.Opened.{remote_auth}
use merch.Client.Expected.{
  TokenCrosses, health_reply, send_coin_reply, send_coin_failed, buy_item_reply, info_reply,
  auth_reply, auth_failed,
}
use merch.Client.Calls.{post_api_send_coin_with_response, post_api_auth_with_response}
use merch.Client.Network.{connected, to_client, authorization}
use merch.Server.Router.{serve}
use merch.Server.Handlers.{post_api_send_coin, post_api_auth}
use merch.Auth.Tokens.{authenticate_token}
use merch.Tests.Json.{text_of-codes}
use merch.Tests.Wire.{collate, json, json-ErrorsCross, http, wire, newcomer, shop_url, reach}

abbrev wrong_login : AuthRequest
wrong_login = record { username = "bob"; password = 9 ∷ [] }

abbrev bob : Data
bob = record { user_id = 2 }

abbrev gift : SendCoinRequest
gift = record { amount = pos 30; to_user = "alice" }

bob_authenticated : authenticate_token one_token [] 0 (7 ∷ []) ≡ ok bob
unfolding authenticate_token wrap_result
bob_authenticated = refl

remote_send_coin_example :
    post_api_send_coin_with_response http json
      (connected json wire (serve collate quiet plain_hasher one_token [] [] decoded) shop_url)
      gift
      (authorization (7 ∷ []) ∷ [])
      start
    ≡ returned json wire
        (send_coin_reply json wire)
        (send_coin_failed json wire)
        (post_api_send_coin quiet (some 2) gift start)
remote_send_coin_example =
    remote_send_coin http json wire collate quiet plain_hasher one_token [] [] decoded shop_url
      (7 ∷ []) gift (30 ∷ codes "alice") bob (reach (codes "./api/sendCoin")) refl refl
      json-ErrorsCross start bob_authenticated

json-TokenCrosses : (r : PostApiAuthResponse) → TokenCrosses json r
json-TokenCrosses (PostApiAuthResponse.ok200 t) = refl
json-TokenCrosses (PostApiAuthResponse.error400 m) = tt
json-TokenCrosses (PostApiAuthResponse.error401 m) = tt
json-TokenCrosses (PostApiAuthResponse.error500 m) = tt

remote_auth_example :
    post_api_auth_with_response http json
      (connected json wire (serve collate quiet plain_hasher one_token [] [] decoded) shop_url)
      wrong_login
      []
      start
    ≡ returned json wire
        (auth_reply json wire)
        (auth_failed json wire)
        (post_api_auth quiet plain_hasher one_token [] wrong_login start)
remote_auth_example =
    remote_auth http json wire collate quiet plain_hasher one_token [] [] decoded shop_url
      wrong_login (codes "bob" ++ (0 ∷ 9 ∷ [])) (reach (codes "./api/auth")) refl refl
      json-ErrorsCross start
      (cross (TokenCrosses json) (post_api_auth quiet plain_hasher one_token [] wrong_login start).0
        json-TokenCrosses)

parse-reply_example :
    (parse_post_api_auth_response json
        (to_client json wire (visit_post_api_auth (PostApiAuthResponse.ok200 (7 ∷ []))))
      ≡ ok (auth_reply json wire (PostApiAuthResponse.ok200 (7 ∷ []))))
    × (parse_get_api_buy_item_response json (
          to_client json wire
            (visit_get_api_buy_item (GetApiBuyItemResponse.error400 "empty item")))
        ≡ ok (buy_item_reply json wire (GetApiBuyItemResponse.error400 "empty item")))
    × (parse_get_api_health_response json
          (to_client json wire (visit_get_api_health (GetApiHealthResponse.ok200 "ok")))
        ≡ ok (health_reply json wire (GetApiHealthResponse.ok200 "ok")))
    × (parse_get_api_info_response json
          (to_client json wire (visit_get_api_info (GetApiInfoResponse.ok200 newcomer)))
        ≡ ok (info_reply json wire (GetApiInfoResponse.ok200 newcomer)))
    × (parse_post_api_send_coin_response json
          (to_client json wire (visit_post_api_send_coin PostApiSendCoinResponse.ok200))
        ≡ ok (send_coin_reply json wire PostApiSendCoinResponse.ok200))
parse-reply_example =
    parse-reply json wire json-ErrorsCross (PostApiAuthResponse.ok200 (7 ∷ []))
      (GetApiBuyItemResponse.error400 "empty item") (GetApiHealthResponse.ok200 "ok")
      (GetApiInfoResponse.ok200 newcomer) PostApiSendCoinResponse.ok200 refl
      (rw (text_of-codes "ok") refl) refl

-- a page of another server
abbrev page : HttpResponse
page = record {
  status = "200 OK";
  status_code = 200;
  content_type = codes "text/html";
  body = ok [];
}

abbrev page_reply : AuthReply
page_reply = record {
  body = [];
  http_response = some page;
  json200 = none;
  json400 = none;
  json401 = none;
  json500 = none;
}

parse_post_api_auth_response-IsReadFrom_example : IsReadFrom json page page_reply
unfolding parse_post_api_auth_response auth_case is_json contains has_prefix
parse_post_api_auth_response-IsReadFrom_example =
    parse_post_api_auth_response-IsReadFrom json page page_reply refl
