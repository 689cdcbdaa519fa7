-- ===== src/Client/Remote/Opened.antt =====
-- The two methods of the client that need no token.
use merch.Base.{String, ◌≡◌, refl, Bool, none, some, [], ◌∷◌}
use merch.Go.Errors.{ok}
use merch.Go.Strings.{codes}
use merch.Postgres.Schema.{Bytes}
use merch.Postgres.Session.{Env, World}
use merch.Users.Hashing.{PasswordHasher}
use merch.Auth.Claims.{Libraries}
use merch.Server.Responses.{AuthRequest, GetApiHealthResponse, visit_post_api_auth}
use merch.Server.Handlers.{post_api_auth, get_api_health}
use merch.Server.Middleware.{
  Decoded, decoded, Request, HttpAction, is_open, path_is, authentication,
}
use merch.Server.Router.{route, is_get, for_method, dispatch, serve, visited}
use merch.Client.{with_slash}
use merch.Client.Payloads.{JsonLibrary}
use merch.Client.Requests.{
  HttpLibrary, relative, new_post_api_auth_request_with_body, new_post_api_auth_request,
  new_get_api_health_request,
}
use merch.Client.Parsers.{parse_post_api_auth_response}
use merch.Client.Calls.{
  edited, apply_editors, send, call_post_api_auth, post_api_auth_with_response, call_get_api_health,
  get_api_health_with_response,
}
use merch.Client.Network.{Wire, to_server, answered, network, connected, IsReachable}
use merch.Client.Remote.{returned, OkCrosses, operation_request_lem, returned_lem, all_cross}
use merch.Client.RoundTrip.{parse-auth, parse-auth_failed, parse-health}
use merch.Client.Expected.{
  ErrorsCross, TokenCrosses, auth_reply, auth_failed, health_reply, StatusCrosses,
}

module _ (http : HttpLibrary) (json : JsonLibrary) (wire : Wire) (collate : String → String → Bool)
    (env : Env) (ph : PasswordHasher) (lib : Libraries) (verification_key signature_key : Bytes)
    (bind_item : String → Decoded String) where
  abbrev handler : Request → HttpAction
  handler = serve collate env ph lib verification_key signature_key bind_item

  -- A call of the client's PostAPIAuthWithResponse, without editors, over a network that hands
  -- requests to the server and responses back, is a call of the handler PostAPIAuth: the tables
  -- change alike, and the caller gets the reply with the handler's response, the reply of status
  -- 500 where the handler fails, or an error where it panics. It is assumed that the server's URL
  -- names the operation's path, that the server decodes the body that the client has marshalled,
  -- and that error responses and the token that the handler issues survive their encoding.
  pub remote_auth :
      (server : Bytes) (body : AuthRequest) (buf : Bytes)
      → IsReachable http wire (with_slash server) (codes "./api/auth") ("api" ∷ "auth" ∷ [])
      → json.marshal_auth body ≡ ok buf
      → json.decode_auth (some buf) ≡ decoded body
      → ErrorsCross json
      → (w : World)
      → OkCrosses (TokenCrosses json) (post_api_auth env ph lib signature_key body w).0
      → post_api_auth_with_response http json (connected json wire handler server) body [] w
        ≡ returned json wire
            (auth_reply json wire)
            (auth_failed json wire)
            (post_api_auth env ph lib signature_key body w)
  unfolding post_api_auth_with_response call_post_api_auth send apply_editors edited
      new_post_api_auth_request new_post_api_auth_request_with_body network to_server serve
      authentication is_open path_is route for_method dispatch relative
  remote_auth server body buf r m d errors w crosses =
      rw
        (
          m,
          operation_request_lem http json wire "POST" (with_slash server) (codes "/api/auth")
              (codes "./api/auth") ("api" ∷ "auth" ∷ []) (some buf) refl r,
          r.reached,
          d,
        )
        (returned_lem http json wire visit_post_api_auth (parse_post_api_auth_response json)
          (auth_reply json wire) (auth_failed json wire) _
          (all_cross (TokenCrosses json) _ _ (λ a. parse-auth json wire errors a) crosses)
          (parse-auth_failed json wire errors))

  -- The health is asked for without a token, and leaves the tables alone.
  pub remote_health :
      (server : Bytes)
      → IsReachable http wire (with_slash server) (codes "./api/health") ("api" ∷ "health" ∷ [])
      → ErrorsCross json
      → StatusCrosses json (GetApiHealthResponse.ok200 "ok")
      → (w : World)
      → get_api_health_with_response http json (connected json wire handler server) [] w
        ≡ (ok (health_reply json wire (GetApiHealthResponse.ok200 "ok")), w)
  unfolding get_api_health_with_response call_get_api_health send apply_editors edited
      new_get_api_health_request network to_server serve authentication is_open path_is route
      for_method is_get dispatch relative get_api_health visited answered
  remote_health server r errors crosses w =
      rw
        (
          operation_request_lem http json wire "GET" (with_slash server) (codes "/api/health")
              (codes "./api/health") ("api" ∷ "health" ∷ []) none refl r,
          r.reached,
          parse-health json wire errors (GetApiHealthResponse.ok200 "ok") crosses,
        )
        refl
