-- ===== src/Client/Expected.antt =====
-- The reply that a client is to get for each response of a handler.
use merch.Base.{String, ◌≡◌, Option, none, some}
use merch.Go.Errors.{ok}
use merch.Server.Responses.{
  Body, Response, PostApiAuthResponse, GetApiBuyItemResponse, GetApiHealthResponse,
  GetApiInfoResponse, PostApiSendCoinResponse, visit_post_api_auth, visit_get_api_buy_item,
  visit_get_api_health, visit_get_api_info, visit_post_api_send_coin,
}
use merch.Client.Payloads.{ErrorResponse, JsonLibrary, info_payload}
use merch.Client.Replies.{AuthReply, BuyItemReply, HealthReply, InfoReply, SendCoinReply}
use merch.Client.Network.{Wire, body_bytes, to_client}

-- Errors are read as they were written.
abbrev pub ErrorsCross : JsonLibrary → Type 0
ErrorsCross json = (e : ErrorResponse) → json.unmarshal_error (json.encode_error e) ≡ ok e

-- The value of a response survives its encoding.
abbrev pub TokenCrosses : JsonLibrary → PostApiAuthResponse → Type 0
TokenCrosses json (PostApiAuthResponse.ok200 t) =
    json.unmarshal_auth (json.encode_auth (record { token = some t }))
    ≡ ok (record { token = some t })
TokenCrosses json _ = Unit

abbrev pub StatusCrosses : JsonLibrary → GetApiHealthResponse → Type 0
StatusCrosses json (GetApiHealthResponse.ok200 s) =
    json.unmarshal_health (json.encode_health (record { status = some s }))
    ≡ ok (record { status = some s })
StatusCrosses json _ = Unit

abbrev pub InfoCrosses : JsonLibrary → GetApiInfoResponse → Type 0
InfoCrosses json (GetApiInfoResponse.ok200 i) =
    json.unmarshal_info (json.encode_info (info_payload i)) ≡ ok (info_payload i)
InfoCrosses json _ = Unit

abbrev message : String → Option ErrorResponse
message m = some (record { errors = some m })

abbrev pub failed : Response
failed = record { status = 500; body = Body.errors "internal server error" }

module _ (json : JsonLibrary) (wire : Wire) where
  -- A reply holds the response's body, and its value in the field of its status alone.
  abbrev blank_auth : Response → AuthReply
  blank_auth r = record {
    body = body_bytes json wire r.body;
    http_response = some (to_client json wire r);
    json200 = none;
    json400 = none;
    json401 = none;
    json500 = none;
  }

  abbrev pub auth_reply : PostApiAuthResponse → AuthReply
  auth_reply (PostApiAuthResponse.ok200 t) =
      record (blank_auth (visit_post_api_auth (PostApiAuthResponse.ok200 t))) {
        json200 = some (record { token = some t });
      }
  auth_reply (PostApiAuthResponse.error400 m) =
      record (blank_auth (visit_post_api_auth (PostApiAuthResponse.error400 m))) {
        json400 = message m;
      }
  auth_reply (PostApiAuthResponse.error401 m) =
      record (blank_auth (visit_post_api_auth (PostApiAuthResponse.error401 m))) {
        json401 = message m;
      }
  auth_reply (PostApiAuthResponse.error500 m) =
      record (blank_auth (visit_post_api_auth (PostApiAuthResponse.error500 m))) {
        json500 = message m;
      }

  abbrev pub auth_failed : AuthReply
  auth_failed = record (blank_auth failed) { json500 = message "internal server error" }

  abbrev blank_buy_item : Response → BuyItemReply
  blank_buy_item r = record {
    body = body_bytes json wire r.body;
    http_response = some (to_client json wire r);
    json400 = none;
    json401 = none;
    json500 = none;
  }

  abbrev pub buy_item_reply : GetApiBuyItemResponse → BuyItemReply
  buy_item_reply GetApiBuyItemResponse.ok200 =
      blank_buy_item (visit_get_api_buy_item GetApiBuyItemResponse.ok200)
  buy_item_reply (GetApiBuyItemResponse.error400 m) =
      record (blank_buy_item (visit_get_api_buy_item (GetApiBuyItemResponse.error400 m))) {
        json400 = message m;
      }
  buy_item_reply (GetApiBuyItemResponse.error401 m) =
      record (blank_buy_item (visit_get_api_buy_item (GetApiBuyItemResponse.error401 m))) {
        json401 = message m;
      }
  buy_item_reply (GetApiBuyItemResponse.error500 m) =
      record (blank_buy_item (visit_get_api_buy_item (GetApiBuyItemResponse.error500 m))) {
        json500 = message m;
      }

  abbrev pub buy_item_failed : BuyItemReply
  buy_item_failed = record (blank_buy_item failed) { json500 = message "internal server error" }

  abbrev blank_health : Response → HealthReply
  blank_health r = record {
    body = body_bytes json wire r.body;
    http_response = some (to_client json wire r);
    json200 = none;
    json500 = none;
  }

  abbrev pub health_reply : GetApiHealthResponse → HealthReply
  health_reply (GetApiHealthResponse.ok200 s) =
      record (blank_health (visit_get_api_health (GetApiHealthResponse.ok200 s))) {
        json200 = some (record { status = some s });
      }
  health_reply (GetApiHealthResponse.error500 m) =
      record (blank_health (visit_get_api_health (GetApiHealthResponse.error500 m))) {
        json500 = message m;
      }

  abbrev pub health_failed : HealthReply
  health_failed = record (blank_health failed) { json500 = message "internal server error" }

  abbrev blank_info : Response → InfoReply
  blank_info r = record {
    body = body_bytes json wire r.body;
    http_response = some (to_client json wire r);
    json200 = none;
    json400 = none;
    json401 = none;
    json500 = none;
  }

  abbrev pub info_reply : GetApiInfoResponse → InfoReply
  info_reply (GetApiInfoResponse.ok200 i) =
      record (blank_info (visit_get_api_info (GetApiInfoResponse.ok200 i))) {
        json200 = some (info_payload i);
      }
  info_reply (GetApiInfoResponse.error400 m) =
      record (blank_info (visit_get_api_info (GetApiInfoResponse.error400 m))) {
        json400 = message m;
      }
  info_reply (GetApiInfoResponse.error401 m) =
      record (blank_info (visit_get_api_info (GetApiInfoResponse.error401 m))) {
        json401 = message m;
      }
  info_reply (GetApiInfoResponse.error500 m) =
      record (blank_info (visit_get_api_info (GetApiInfoResponse.error500 m))) {
        json500 = message m;
      }

  abbrev pub info_failed : InfoReply
  info_failed = record (blank_info failed) { json500 = message "internal server error" }

  abbrev blank_send_coin : Response → SendCoinReply
  blank_send_coin r = record {
    body = body_bytes json wire r.body;
    http_response = some (to_client json wire r);
    json400 = none;
    json401 = none;
    json500 = none;
  }

  abbrev pub send_coin_reply : PostApiSendCoinResponse → SendCoinReply
  send_coin_reply PostApiSendCoinResponse.ok200 =
      blank_send_coin (visit_post_api_send_coin PostApiSendCoinResponse.ok200)
  send_coin_reply (PostApiSendCoinResponse.error400 m) =
      record (blank_send_coin (visit_post_api_send_coin (PostApiSendCoinResponse.error400 m))) {
        json400 = message m;
      }
  send_coin_reply (PostApiSendCoinResponse.error401 m) =
      record (blank_send_coin (visit_post_api_send_coin (PostApiSendCoinResponse.error401 m))) {
        json401 = message m;
      }
  send_coin_reply (PostApiSendCoinResponse.error500 m) =
      record (blank_send_coin (visit_post_api_send_coin (PostApiSendCoinResponse.error500 m))) {
        json500 = message m;
      }

  abbrev pub send_coin_failed : SendCoinReply
  send_coin_failed = record (blank_send_coin failed) { json500 = message "internal server error" }
