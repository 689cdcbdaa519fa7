-- ===== src/Client/Replies.antt =====
-- What the client makes of a response: PostAPIAuthResponse and the like of api/merch/merch.gen.go,
-- and their methods.
use merch.Base.{ℕ, String, Option, none, some}
use merch.Postgres.Schema.{Bytes}
use merch.Client.{HttpResponse}
use merch.Client.Payloads.{AuthResponse, ErrorResponse, HealthResponse, InfoPayload}

-- PostAPIAuthResponse
pub record AuthReply : Type 0 where
  pub body : Bytes
  pub http_response : Option HttpResponse
  pub json200 : Option AuthResponse
  pub json400 : Option ErrorResponse
  pub json401 : Option ErrorResponse
  pub json500 : Option ErrorResponse

-- GetAPIBuyItemResponse
pub record BuyItemReply : Type 0 where
  pub body : Bytes
  pub http_response : Option HttpResponse
  pub json400 : Option ErrorResponse
  pub json401 : Option ErrorResponse
  pub json500 : Option ErrorResponse

-- GetAPIHealthResponse
pub record HealthReply : Type 0 where
  pub body : Bytes
  pub http_response : Option HttpResponse
  pub json200 : Option HealthResponse
  pub json500 : Option ErrorResponse

-- GetAPIInfoResponse
pub record InfoReply : Type 0 where
  pub body : Bytes
  pub http_response : Option HttpResponse
  pub json200 : Option InfoPayload
  pub json400 : Option ErrorResponse
  pub json401 : Option ErrorResponse
  pub json500 : Option ErrorResponse

-- PostAPISendCoinResponse
pub record SendCoinReply : Type 0 where
  pub body : Bytes
  pub http_response : Option HttpResponse
  pub json400 : Option ErrorResponse
  pub json401 : Option ErrorResponse
  pub json500 : Option ErrorResponse

-- what the methods StatusCode and Status read
abbrev code_of : Option HttpResponse → ℕ
code_of none = 0
code_of (some rsp) = rsp.status_code

unfoldable pub auth_status_code : AuthReply → ℕ
auth_status_code r = code_of r.http_response

unfoldable pub buy_item_status_code : BuyItemReply → ℕ
buy_item_status_code r = code_of r.http_response

unfoldable pub health_status_code : HealthReply → ℕ
health_status_code r = code_of r.http_response

unfoldable pub info_status_code : InfoReply → ℕ
info_status_code r = code_of r.http_response

unfoldable pub send_coin_status_code : SendCoinReply → ℕ
send_coin_status_code r = code_of r.http_response

-- `status_text` is http.StatusText.
module _ (status_text : ℕ → String) where
  abbrev status_of : Option HttpResponse → String
  status_of none = status_text 0
  status_of (some rsp) = rsp.status

  unfoldable pub auth_status : AuthReply → String
  auth_status r = status_of r.http_response

  unfoldable pub buy_item_status : BuyItemReply → String
  buy_item_status r = status_of r.http_response

  unfoldable pub health_status : HealthReply → String
  health_status r = status_of r.http_response

  unfoldable pub info_status : InfoReply → String
  info_status r = status_of r.http_response

  unfoldable pub send_coin_status : SendCoinReply → String
  send_coin_status r = status_of r.http_response
