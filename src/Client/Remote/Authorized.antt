-- ===== src/Client/Remote/Authorized.antt =====
-- The client's methods that need a token, with the editor that sends one.
use merch.Base.{String, ◌≡◌, refl, Bool, false, none, some, [], ◌∷◌, ◌++◌, str_eq}
use merch.Base.Lists.{filter}
use merch.Go.Errors.{ok}
use merch.Go.Strings.{codes}
use merch.Postgres.Schema.{Bytes}
use merch.Postgres.Session.{Env, World}
use merch.Users.Hashing.{PasswordHasher}
use merch.Auth.Claims.{Libraries}
use merch.Auth.Password.{Data}
use merch.Auth.Tokens.{authenticate_token}
use merch.Server.Responses.{
  SendCoinRequest, visit_get_api_buy_item, visit_get_api_info, visit_post_api_send_coin,
}
use merch.Server.Handlers.{get_api_buy_item, post_api_send_coin}
use merch.Server.Info.{get_api_info}
use merch.Server.Middleware.{
  Decoded, decoded, Request, HttpAction, is_open, path_is, cut_space, equal_fold, check_scheme,
  check_header, admit, authentication,
}
use merch.Server.Router.{route, is_get, for_method, dispatch, serve}
use merch.Client.{with_slash}
use merch.Client.Payloads.{JsonLibrary}
use merch.Client.Requests.{
  HttpLibrary, relative, new_get_api_buy_item_request, new_get_api_info_request,
  new_post_api_send_coin_request_with_body, new_post_api_send_coin_request,
}
use merch.Client.Parsers.{
  parse_post_api_send_coin_response, parse_get_api_buy_item_response, parse_get_api_info_response,
}
use merch.Client.Calls.{
  edited, apply_editors, send, call_post_api_send_coin, post_api_send_coin_with_response,
  call_get_api_buy_item, get_api_buy_item_with_response, call_get_api_info,
  get_api_info_with_response,
}
use merch.Client.Network.{
  Wire, header_get, header_set, authorization, to_server, network, connected, IsReachable,
}
use merch.Client.Remote.{returned, OkCrosses, operation_request_lem, returned_lem, all_cross, cross}
use merch.Client.RoundTrip.{
  parse-send_coin, parse-send_coin_failed, parse-buy_item, parse-buy_item_failed, parse-info,
  parse-info_failed,
}
use merch.Client.Expected.{
  ErrorsCross, send_coin_reply, send_coin_failed, buy_item_reply, buy_item_failed, info_reply,
  info_failed, InfoCrosses,
}

module _ (http : HttpLibrary) (json : JsonLibrary) (wire : Wire) (collate : String → String → Bool)
    (env : Env) (ph : PasswordHasher) (lib : Libraries) (verification_key signature_key : Bytes)
    (bind_item : String → Decoded String) where
  abbrev handler : Request → HttpAction
  handler = serve collate env ph lib verification_key signature_key bind_item

  -- A call of the client's PostAPISendCoinWithResponse, with the editor that sets a bearer token,
  -- over a network that hands requests to the server and responses back, is a call of the handler
  -- PostAPISendCoin for the user of the token: the tables change alike, and the caller gets the
  -- reply with the handler's response, the reply of status 500 where the handler fails, or an error
  -- where it panics. It is assumed that the server's URL names the operation's path, that the
  -- server decodes the body that the client has marshalled, that error responses survive their
  -- encoding, and that the token authenticates.
  pub remote_send_coin :
      (server token : Bytes) (body : SendCoinRequest) (buf : Bytes) (d : Data)
      → IsReachable http wire (with_slash server) (codes "./api/sendCoin") ("api" ∷ "sendCoin" ∷ [])
      → json.marshal_send_coin body ≡ ok buf
      → json.decode_send_coin (some buf) ≡ decoded body
      → ErrorsCross json
      → (w : World) → authenticate_token lib verification_key (env.now w.tick) token ≡ ok d
      → post_api_send_coin_with_response http json
          (connected json wire handler server)
          body
          (authorization token ∷ [])
          w
        ≡ returned json wire
            (send_coin_reply json wire)
            (send_coin_failed json wire)
            (post_api_send_coin env (some d.user_id) body w)
  unfolding post_api_send_coin_with_response call_post_api_send_coin send apply_editors edited
      new_post_api_send_coin_request new_post_api_send_coin_request_with_body network to_server
      serve authentication is_open path_is route for_method dispatch relative authorization
      header_set header_get check_header check_scheme cut_space equal_fold admit filter
  remote_send_coin server token body buf d r m e errors w accepted =
      rw
        (
          m,
          operation_request_lem http json wire "POST" (with_slash server) (codes "/api/sendCoin")
              (codes "./api/sendCoin") ("api" ∷ "sendCoin" ∷ []) (some buf) refl r,
          r.reached,
          accepted,
          e,
        )
        (returned_lem http json wire visit_post_api_send_coin
          (parse_post_api_send_coin_response json) (send_coin_reply json wire)
          (send_coin_failed json wire) _ (cross _ _ (parse-send_coin json wire errors))
          (parse-send_coin_failed json wire errors))

  -- A call of the client's GetAPIBuyItemWithResponse, with the editor that sets a bearer token,
  -- over a network that hands requests to the server and responses back, is a call of the handler
  -- GetAPIBuyItem for the user of the token: the tables change alike, and the caller gets the reply
  -- with the handler's response, the reply of status 500 where the handler fails, or an error where
  -- it panics. It is assumed that the server's URL with the styled parameter names the path of a
  -- segment that is not empty, that the server binds the item's name to this segment, that error
  -- responses survive their encoding, and that the token authenticates.
  pub remote_buy_item :
      (server token : Bytes) (item segment : String) (param : Bytes) (d : Data)
      → IsReachable http wire
          (with_slash server)
          (codes "./api/buy/" ++ param)
          ("api" ∷ "buy" ∷ segment ∷ [])
      → http.style_param item ≡ ok param
      → str_eq segment "" ≡ false
      → bind_item segment ≡ decoded item
      → ErrorsCross json
      → (w : World) → authenticate_token lib verification_key (env.now w.tick) token ≡ ok d
      → get_api_buy_item_with_response http json
          (connected json wire handler server)
          item
          (authorization token ∷ [])
          w
        ≡ returned json wire
            (buy_item_reply json wire)
            (buy_item_failed json wire)
            (get_api_buy_item env (some d.user_id) item w)
  unfolding get_api_buy_item_with_response call_get_api_buy_item send apply_editors edited
      new_get_api_buy_item_request network to_server serve authentication is_open path_is route
      for_method is_get dispatch relative authorization header_set header_get check_header
      check_scheme cut_space equal_fold admit filter
  remote_buy_item server token item segment param d r styled full bound errors w accepted =
      rw
        (
          styled,
          operation_request_lem http json wire "GET" (with_slash server)
              (codes "/api/buy/" ++ param) (codes "./api/buy/" ++ param)
              ("api" ∷ "buy" ∷ segment ∷ []) none refl r,
          r.reached,
          full,
          accepted,
          bound,
        )
        (returned_lem http json wire visit_get_api_buy_item (parse_get_api_buy_item_response json)
          (buy_item_reply json wire) (buy_item_failed json wire) _
          (cross _ _ (parse-buy_item json wire errors)) (parse-buy_item_failed json wire errors))

  -- The same of GetAPIInfo, if the information that the handler gives survives its encoding.
  pub remote_info :
      (server token : Bytes) (d : Data)
      → IsReachable http wire (with_slash server) (codes "./api/info") ("api" ∷ "info" ∷ [])
      → ErrorsCross json
      → (w : World) → authenticate_token lib verification_key (env.now w.tick) token ≡ ok d
      → OkCrosses (InfoCrosses json) (get_api_info collate env (some d.user_id) w).0
      → get_api_info_with_response http json
          (connected json wire handler server)
          (authorization token ∷ [])
          w
        ≡ returned json wire
            (info_reply json wire)
            (info_failed json wire)
            (get_api_info collate env (some d.user_id) w)
  unfolding get_api_info_with_response call_get_api_info send apply_editors edited
      new_get_api_info_request network to_server serve authentication is_open path_is route
      for_method is_get dispatch relative authorization header_set header_get check_header
      check_scheme cut_space equal_fold admit filter
  remote_info server token d r errors w accepted crosses =
      rw
        (
          operation_request_lem http json wire "GET" (with_slash server) (codes "/api/info")
              (codes "./api/info") ("api" ∷ "info" ∷ []) none refl r,
          r.reached,
          accepted,
        )
        (returned_lem http json wire visit_get_api_info (parse_get_api_info_response json)
          (info_reply json wire) (info_failed json wire) _
          (all_cross (InfoCrosses json) _ _ (parse-info json wire errors) crosses)
          (parse-info_failed json wire errors))
