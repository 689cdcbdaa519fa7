-- ===== src/Client/RoundTrip.antt =====
-- What the client reads from a response that the server's Visit… methods have written.
use merch.Base.{◌≡◌, refl, some}
use merch.Go.Errors.{ok}
use merch.Server.Responses.{
  PostApiAuthResponse, GetApiBuyItemResponse, GetApiHealthResponse, GetApiInfoResponse,
  PostApiSendCoinResponse, visit_post_api_auth, visit_get_api_buy_item, visit_get_api_health,
  visit_get_api_info, visit_post_api_send_coin,
}
use merch.Go.Substrings.{has_prefix, contains}
use merch.Client.Payloads.{JsonLibrary}
use merch.Client.Parsers.{
  is_json, auth_case, buy_item_case, health_case, info_case, send_coin_case,
  parse_post_api_auth_response, parse_get_api_buy_item_response, parse_get_api_health_response,
  parse_get_api_info_response, parse_post_api_send_coin_response,
}
use merch.Client.Network.{Wire, body_bytes, content_type_of, to_client}
use merch.Client.Expected.{
  ErrorsCross, TokenCrosses, StatusCrosses, InfoCrosses, failed, auth_reply, auth_failed,
  buy_item_reply, buy_item_failed, health_reply, health_failed, info_reply, info_failed,
  send_coin_reply, send_coin_failed,
}

module _ (json : JsonLibrary) (wire : Wire) where
  pub parse-auth :
      ErrorsCross json
      → (r : PostApiAuthResponse) → TokenCrosses json r
      → parse_post_api_auth_response json (to_client json wire (visit_post_api_auth r))
        ≡ ok (auth_reply json wire r)
  unfolding parse_post_api_auth_response auth_case is_json contains has_prefix to_client body_bytes
      content_type_of visit_post_api_auth
  parse-auth h (PostApiAuthResponse.ok200 t) e = rw e refl
  parse-auth h (PostApiAuthResponse.error400 m) e = rw (h (record { errors = some m })) refl
  parse-auth h (PostApiAuthResponse.error401 m) e = rw (h (record { errors = some m })) refl
  parse-auth h (PostApiAuthResponse.error500 m) e = rw (h (record { errors = some m })) refl

  pub parse-auth_failed :
      ErrorsCross json
      → parse_post_api_auth_response json (to_client json wire failed) ≡ ok (auth_failed json wire)
  unfolding parse_post_api_auth_response auth_case is_json contains has_prefix to_client body_bytes
      content_type_of
  parse-auth_failed h = rw (h (record { errors = some "internal server error" })) refl

  pub parse-buy_item :
      ErrorsCross json
      → (r : GetApiBuyItemResponse)
      → parse_get_api_buy_item_response json (to_client json wire (visit_get_api_buy_item r))
        ≡ ok (buy_item_reply json wire r)
  unfolding parse_get_api_buy_item_response buy_item_case is_json contains has_prefix to_client
      body_bytes content_type_of visit_get_api_buy_item
  parse-buy_item h GetApiBuyItemResponse.ok200 = refl
  parse-buy_item h (GetApiBuyItemResponse.error400 m) = rw (h (record { errors = some m })) refl
  parse-buy_item h (GetApiBuyItemResponse.error401 m) = rw (h (record { errors = some m })) refl
  parse-buy_item h (GetApiBuyItemResponse.error500 m) = rw (h (record { errors = some m })) refl

  pub parse-buy_item_failed :
      ErrorsCross json
      → parse_get_api_buy_item_response json (to_client json wire failed)
        ≡ ok (buy_item_failed json wire)
  unfolding parse_get_api_buy_item_response buy_item_case is_json contains has_prefix to_client
      body_bytes content_type_of
  parse-buy_item_failed h = rw (h (record { errors = some "internal server error" })) refl

  pub parse-health :
      ErrorsCross json
      → (r : GetApiHealthResponse) → StatusCrosses json r
      → parse_get_api_health_response json (to_client json wire (visit_get_api_health r))
        ≡ ok (health_reply json wire r)
  unfolding parse_get_api_health_response health_case is_json contains has_prefix to_client
      body_bytes content_type_of visit_get_api_health
  parse-health h (GetApiHealthResponse.ok200 s) e = rw e refl
  parse-health h (GetApiHealthResponse.error500 m) e = rw (h (record { errors = some m })) refl

  pub parse-health_failed :
      ErrorsCross json
      → parse_get_api_health_response json (to_client json wire failed)
        ≡ ok (health_failed json wire)
  unfolding parse_get_api_health_response health_case is_json contains has_prefix to_client
      body_bytes content_type_of
  parse-health_failed h = rw (h (record { errors = some "internal server error" })) refl

  pub parse-info :
      ErrorsCross json
      → (r : GetApiInfoResponse) → InfoCrosses json r
      → parse_get_api_info_response json (to_client json wire (visit_get_api_info r))
        ≡ ok (info_reply json wire r)
  unfolding parse_get_api_info_response info_case is_json contains has_prefix to_client body_bytes
      content_type_of visit_get_api_info
  parse-info h (GetApiInfoResponse.ok200 i) e = rw e refl
  parse-info h (GetApiInfoResponse.error400 m) e = rw (h (record { errors = some m })) refl
  parse-info h (GetApiInfoResponse.error401 m) e = rw (h (record { errors = some m })) refl
  parse-info h (GetApiInfoResponse.error500 m) e = rw (h (record { errors = some m })) refl

  pub parse-info_failed :
      ErrorsCross json
      → parse_get_api_info_response json (to_client json wire failed) ≡ ok (info_failed json wire)
  unfolding parse_get_api_info_response info_case is_json contains has_prefix to_client body_bytes
      content_type_of
  parse-info_failed h = rw (h (record { errors = some "internal server error" })) refl

  pub parse-send_coin :
      ErrorsCross json
      → (r : PostApiSendCoinResponse)
      → parse_post_api_send_coin_response json (to_client json wire (visit_post_api_send_coin r))
        ≡ ok (send_coin_reply json wire r)
  unfolding parse_post_api_send_coin_response send_coin_case is_json contains has_prefix to_client
      body_bytes content_type_of visit_post_api_send_coin
  parse-send_coin h PostApiSendCoinResponse.ok200 = refl
  parse-send_coin h (PostApiSendCoinResponse.error400 m) = rw (h (record { errors = some m })) refl
  parse-send_coin h (PostApiSendCoinResponse.error401 m) = rw (h (record { errors = some m })) refl
  parse-send_coin h (PostApiSendCoinResponse.error500 m) = rw (h (record { errors = some m })) refl

  pub parse-send_coin_failed :
      ErrorsCross json
      → parse_post_api_send_coin_response json (to_client json wire failed)
        ≡ ok (send_coin_failed json wire)
  unfolding parse_post_api_send_coin_response send_coin_case is_json contains has_prefix to_client
      body_bytes content_type_of
  parse-send_coin_failed h = rw (h (record { errors = some "internal server error" })) refl

  -- For each of the five operations, what the client's parser reads from the response that the
  -- server's Visit method writes is the reply with the response's body, and its value in the field
  -- of its status alone; if error responses, the token, the health status and the information in
  -- question survive their encoding as JSON.
  pub parse-reply :
      ErrorsCross json
      → (a : PostApiAuthResponse) (b : GetApiBuyItemResponse) (h : GetApiHealthResponse)
        (i : GetApiInfoResponse) (s : PostApiSendCoinResponse)
      → TokenCrosses json a
      → StatusCrosses json h
      → InfoCrosses json i
      → (parse_post_api_auth_response json (to_client json wire (visit_post_api_auth a))
          ≡ ok (auth_reply json wire a))
        × (parse_get_api_buy_item_response json (to_client json wire (visit_get_api_buy_item b))
            ≡ ok (buy_item_reply json wire b))
        × (parse_get_api_health_response json (to_client json wire (visit_get_api_health h))
            ≡ ok (health_reply json wire h))
        × (parse_get_api_info_response json (to_client json wire (visit_get_api_info i))
            ≡ ok (info_reply json wire i))
        × (parse_post_api_send_coin_response json (to_client json wire (visit_post_api_send_coin s))
            ≡ ok (send_coin_reply json wire s))
  parse-reply e a b h i s ea eh ei = (
    parse-auth e a ea,
    parse-buy_item e b,
    parse-health e h eh,
    parse-info e i ei,
    parse-send_coin e s,
  )
