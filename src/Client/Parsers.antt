-- ===== src/Client/Parsers.antt =====
-- ParsePostAPIAuthResponse and the like of api/merch/merch.gen.go.
use merch.Base.{ℕ, Bool, ◌&&◌, none, some, ◌==◌, if◌then◌else◌}
use merch.Go.Errors.{Result, ok}
use merch.Go.Results.{◌>>=◌}
use merch.Go.Strings.{codes}
use merch.Go.Substrings.{contains}
use merch.Client.{HttpResponse}
use merch.Client.Payloads.{JsonLibrary}
use merch.Client.Replies.{AuthReply, BuyItemReply, HealthReply, InfoReply, SendCoinReply}

-- strings.Contains(rsp.Header.Get("Content-Type"), "json") && rsp.StatusCode == code
unfoldable pub is_json : HttpResponse → ℕ → Bool
is_json rsp status = contains rsp.content_type (codes "json") && rsp.status_code == status

module _ (json : JsonLibrary) where
  -- the switch over the content type and the status
  unfoldable pub auth_case : HttpResponse → AuthReply → Result AuthReply
  unfolding is_json
  auth_case rsp response =
      if is_json rsp 200
      then (do
        dest ← json.unmarshal_auth response.body
        ok (record response { json200 = some dest }))
      else if is_json rsp 400
      then (do
        dest ← json.unmarshal_error response.body
        ok (record response { json400 = some dest }))
      else if is_json rsp 401
      then (do
        dest ← json.unmarshal_error response.body
        ok (record response { json401 = some dest }))
      else if is_json rsp 500
      then (do
        dest ← json.unmarshal_error response.body
        ok (record response { json500 = some dest }))
      else ok response

  -- ParsePostAPIAuthResponse
  unfoldable pub parse_post_api_auth_response : HttpResponse → Result AuthReply
  unfolding auth_case
  parse_post_api_auth_response rsp = do
    body_bytes ← rsp.body
    auth_case rsp (record {
      body = body_bytes;
      http_response = some rsp;
      json200 = none;
      json400 = none;
      json401 = none;
      json500 = none;
    })

  -- the switch over the content type and the status
  unfoldable pub buy_item_case : HttpResponse → BuyItemReply → Result BuyItemReply
  unfolding is_json
  buy_item_case rsp response =
      if is_json rsp 400
      then (do
        dest ← json.unmarshal_error response.body
        ok (record response { json400 = some dest }))
      else if is_json rsp 401
      then (do
        dest ← json.unmarshal_error response.body
        ok (record response { json401 = some dest }))
      else if is_json rsp 500
      then (do
        dest ← json.unmarshal_error response.body
        ok (record response { json500 = some dest }))
      else ok response

  -- ParseGetAPIBuyItemResponse
  unfoldable pub parse_get_api_buy_item_response : HttpResponse → Result BuyItemReply
  unfolding buy_item_case
  parse_get_api_buy_item_response rsp = do
    body_bytes ← rsp.body
    buy_item_case rsp (record {
      body = body_bytes;
      http_response = some rsp;
      json400 = none;
      json401 = none;
      json500 = none;
    })

  -- the switch over the content type and the status
  unfoldable pub health_case : HttpResponse → HealthReply → Result HealthReply
  unfolding is_json
  health_case rsp response =
      if is_json rsp 200
      then (do
        dest ← json.unmarshal_health response.body
        ok (record response { json200 = some dest }))
      else if is_json rsp 500
      then (do
        dest ← json.unmarshal_error response.body
        ok (record response { json500 = some dest }))
      else ok response

  -- ParseGetAPIHealthResponse
  unfoldable pub parse_get_api_health_response : HttpResponse → Result HealthReply
  unfolding health_case
  parse_get_api_health_response rsp = do
    body_bytes ← rsp.body
    health_case rsp
        (record { body = body_bytes; http_response = some rsp; json200 = none; json500 = none })

  -- the switch over the content type and the status
  unfoldable pub info_case : HttpResponse → InfoReply → Result InfoReply
  unfolding is_json
  info_case rsp response =
      if is_json rsp 200
      then (do
        dest ← json.unmarshal_info response.body
        ok (record response { json200 = some dest }))
      else if is_json rsp 400
      then (do
        dest ← json.unmarshal_error response.body
        ok (record response { json400 = some dest }))
      else if is_json rsp 401
      then (do
        dest ← json.unmarshal_error response.body
        ok (record response { json401 = some dest }))
      else if is_json rsp 500
      then (do
        dest ← json.unmarshal_error response.body
        ok (record response { json500 = some dest }))
      else ok response

  -- ParseGetAPIInfoResponse
  unfoldable pub parse_get_api_info_response : HttpResponse → Result InfoReply
  unfolding info_case
  parse_get_api_info_response rsp = do
    body_bytes ← rsp.body
    info_case rsp (record {
      body = body_bytes;
      http_response = some rsp;
      json200 = none;
      json400 = none;
      json401 = none;
      json500 = none;
    })

  -- the switch over the content type and the status
  unfoldable pub send_coin_case : HttpResponse → SendCoinReply → Result SendCoinReply
  unfolding is_json
  send_coin_case rsp response =
      if is_json rsp 400
      then (do
        dest ← json.unmarshal_error response.body
        ok (record response { json400 = some dest }))
      else if is_json rsp 401
      then (do
        dest ← json.unmarshal_error response.body
        ok (record response { json401 = some dest }))
      else if is_json rsp 500
      then (do
        dest ← json.unmarshal_error response.body
        ok (record response { json500 = some dest }))
      else ok response

  -- ParsePostAPISendCoinResponse
  unfoldable pub parse_post_api_send_coin_response : HttpResponse → Result SendCoinReply
  unfolding send_coin_case
  parse_post_api_send_coin_response rsp = do
    body_bytes ← rsp.body
    send_coin_case rsp (record {
      body = body_bytes;
      http_response = some rsp;
      json400 = none;
      json401 = none;
      json500 = none;
    })
