-- ===== src/Server/Handlers.antt =====
-- cmd/server/auth.go, buy.go, send.go and health.go: the handlers that the router calls.
use merch.Base.{String, Bool, true, false, Option, none, some, [], ◌∷◌, str_eq, if◌then◌else◌}
use merch.Base.Int.{pos, leb_ℤ}
use merch.Go.Errors.{
  Error, panic, errors_is, invalid_username_or_password, item_not_exist, not_enough,
  dst_user_not_found, src_user_and_dst_user_equal,
}
use merch.Postgres.Schema.{Uuid, Bytes}
use merch.Postgres.Session.{Env, Action, pure, fail, lift, case_of, ◌>>=◌}
use merch.Users.Hashing.{PasswordHasher}
use merch.Auth.Claims.{Libraries}
use merch.Auth.Password.{Data, authenticate_password}
use merch.Auth.Tokens.{issue_token}
use merch.Transfers.Transferer.{transfer_by_username}
use merch.Purchases.Purchaser.{purchase_by_name}
use merch.Server.Responses.{
  AuthRequest, SendCoinRequest, PostApiAuthResponse, GetApiBuyItemResponse, PostApiSendCoinResponse,
  GetApiHealthResponse,
}

unfoldable pub is_empty : Bytes → Bool
is_empty [] = true
is_empty (x ∷ xs) = false

-- The value that the middleware puts into the request's context; without one the handler panics.
abbrev pub with_user_id : {A : Type 0} → Option Uuid → (Uuid → Action A) → Action A
with_user_id none f w = (panic, w)
with_user_id (some id) f w = f id w

module _ (env : Env) (ph : PasswordHasher) (lib : Libraries) (signature_key : Bytes) where
  -- the token of a user who has authenticated, with the next id and the time of the request
  unfoldable pub respond_token : Data → Action PostApiAuthResponse
  respond_token auth_data = do
    token ← (λ w.
        lift (issue_token lib signature_key (env.uuid w.tick 0) (env.now w.tick) auth_data.user_id)
          w)
    pure (PostApiAuthResponse.ok200 token)

  unfoldable pub post_api_auth : AuthRequest → Action PostApiAuthResponse
  unfolding is_empty
  post_api_auth body =
      if str_eq body.username ""
      then pure (PostApiAuthResponse.error400 "empty username")
      else if is_empty body.password
      then pure (PostApiAuthResponse.error400 "empty password")
      else case_of (authenticate_password env ph body.username body.password) respond_token (λ e.
        if errors_is e invalid_username_or_password
        then pure (PostApiAuthResponse.error401 "invalid username or password")
        else fail e)

module _ (env : Env) where
  -- the errors that a buyer is told of
  unfoldable pub buy_error : Error → Action GetApiBuyItemResponse
  buy_error e =
      if errors_is e item_not_exist
      then pure (GetApiBuyItemResponse.error400 "item does not exist")
      else if errors_is e not_enough
      then pure (GetApiBuyItemResponse.error400 "not enough coin")
      else fail e

  unfoldable pub get_api_buy_item : Option Uuid → String → Action GetApiBuyItemResponse
  get_api_buy_item context item_name = with_user_id context λ user_id.
      if str_eq item_name ""
      then pure (GetApiBuyItemResponse.error400 "empty item")
      else case_of (purchase_by_name env item_name user_id) (λ _. pure GetApiBuyItemResponse.ok200)
          buy_error

  -- the errors that a sender is told of
  unfoldable pub send_error : Error → Action PostApiSendCoinResponse
  send_error e =
      if errors_is e dst_user_not_found
      then pure (PostApiSendCoinResponse.error400 "toUser doesn't exist")
      else if errors_is e src_user_and_dst_user_equal
      then pure (PostApiSendCoinResponse.error400 "fromUser and toUser are equal")
      else if errors_is e not_enough
      then pure (PostApiSendCoinResponse.error400 "not enough coin")
      else fail e

  unfoldable pub post_api_send_coin : Option Uuid → SendCoinRequest → Action PostApiSendCoinResponse
  post_api_send_coin context body = with_user_id context λ from_user_id.
      if str_eq body.to_user ""
      then pure (PostApiSendCoinResponse.error400 "empty toUser body value")
      else if leb_ℤ body.amount (pos 0)
      then pure (PostApiSendCoinResponse.error400 "non-positive amount body value")
      else case_of (transfer_by_username env body.to_user from_user_id body.amount)
          (λ _. pure PostApiSendCoinResponse.ok200) send_error

unfoldable pub get_api_health : Action GetApiHealthResponse
get_api_health = pure (GetApiHealthResponse.ok200 "ok")
