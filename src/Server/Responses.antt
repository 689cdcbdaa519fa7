-- ===== src/Server/Responses.antt =====
-- The bodies and responses of api/merch/merch.gen.go that the handlers use.
use merch.Base.{ℕ, String, List}
use merch.Base.Int.{ℤ}
use merch.Go.Errors.{Error}
use merch.Postgres.Schema.{Bytes}

-- merch.AuthRequest
pub record AuthRequest : Type 0 where
  pub username : String
  pub password : Bytes

-- merch.SendCoinRequest
pub record SendCoinRequest : Type 0 where
  pub amount : ℤ
  pub to_user : String

pub record ReceivedHistoryItem : Type 0 where
  pub amount : ℤ
  pub from_user : String

pub record SentHistoryItem : Type 0 where
  pub amount : ℤ
  pub to_user : String

pub record InventoryItem : Type 0 where
  pub quantity : ℕ
  pub item_type : String

-- merch.InfoResponse; the handler sets every pointer.
pub record InfoResponse : Type 0 where
  pub received : List ReceivedHistoryItem
  pub sent : List SentHistoryItem
  pub coins : ℤ
  pub inventory : List InventoryItem

-- what a response's JSON body holds
pub data Body : Type 0 where
  empty : Body
  errors : String → Body
  -- "Authorization header: " and the error's text
  header_error : Error → Body
  token : Bytes → Body
  health : String → Body
  plain : String → Body
  info : InfoResponse → Body

pub record Response : Type 0 where
  pub status : ℕ
  pub body : Body

-- PostAPIAuth200JSONResponse, …
pub data PostApiAuthResponse : Type 0 where
  ok200 : Bytes → PostApiAuthResponse
  error400 error401 error500 : String → PostApiAuthResponse

pub data GetApiBuyItemResponse : Type 0 where
  ok200 : GetApiBuyItemResponse
  error400 error401 error500 : String → GetApiBuyItemResponse

pub data PostApiSendCoinResponse : Type 0 where
  ok200 : PostApiSendCoinResponse
  error400 error401 error500 : String → PostApiSendCoinResponse

pub data GetApiHealthResponse : Type 0 where
  ok200 : String → GetApiHealthResponse
  error500 : String → GetApiHealthResponse

pub data GetApiInfoResponse : Type 0 where
  ok200 : InfoResponse → GetApiInfoResponse
  error400 error401 error500 : String → GetApiInfoResponse

-- The Visit… methods: a status and a body.
unfoldable pub visit_post_api_auth : PostApiAuthResponse → Response
visit_post_api_auth (ok200 t) = record { status = 200; body = token t }
visit_post_api_auth (error400 m) = record { status = 400; body = errors m }
visit_post_api_auth (error401 m) = record { status = 401; body = errors m }
visit_post_api_auth (error500 m) = record { status = 500; body = errors m }

unfoldable pub visit_get_api_buy_item : GetApiBuyItemResponse → Response
visit_get_api_buy_item ok200 = record { status = 200; body = empty }
visit_get_api_buy_item (error400 m) = record { status = 400; body = errors m }
visit_get_api_buy_item (error401 m) = record { status = 401; body = errors m }
visit_get_api_buy_item (error500 m) = record { status = 500; body = errors m }

unfoldable pub visit_get_api_health : GetApiHealthResponse → Response
visit_get_api_health (ok200 s) = record { status = 200; body = health s }
visit_get_api_health (error500 m) = record { status = 500; body = errors m }

unfoldable pub visit_get_api_info : GetApiInfoResponse → Response
visit_get_api_info (ok200 i) = record { status = 200; body = info i }
visit_get_api_info (error400 m) = record { status = 400; body = errors m }
visit_get_api_info (error401 m) = record { status = 401; body = errors m }
visit_get_api_info (error500 m) = record { status = 500; body = errors m }

unfoldable pub visit_post_api_send_coin : PostApiSendCoinResponse → Response
visit_post_api_send_coin ok200 = record { status = 200; body = empty }
visit_post_api_send_coin (error400 m) = record { status = 400; body = errors m }
visit_post_api_send_coin (error401 m) = record { status = 401; body = errors m }
visit_post_api_send_coin (error500 m) = record { status = 500; body = errors m }
