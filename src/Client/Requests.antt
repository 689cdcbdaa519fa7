-- ===== src/Client/Requests.antt =====
-- The builders of requests in api/merch/merch.gen.go.
use merch.Base.{String, Option, none, some, [], ◌∷◌, ◌++◌, ◌==◌, if◌then◌else◌}
use merch.Go.Errors.{Result, ok, panic}
use merch.Go.Results.{◌>>=◌}
use merch.Go.Strings.{codes}
use merch.Go.Substrings.{slash}
use merch.Postgres.Schema.{Bytes}
use merch.Server.Responses.{AuthRequest, SendCoinRequest}
use merch.Client.{HttpRequest}
use merch.Client.Payloads.{JsonLibrary}

-- net/url and net/http: url.Parse, (*URL).Parse, (*URL).String and http.NewRequest;
-- `style_param` is runtime.StyleParamWithLocation for the path parameter `item`.
pub record HttpLibrary : Type 1 where
  pub Url : Type 0
  pub parse_url : Bytes → Result Url
  pub resolve : Url → Bytes → Result Url
  pub url_string : Url → Bytes
  pub new_request : String → Bytes → Option Bytes → Result HttpRequest
  pub style_param : String → Result Bytes

-- if operationPath[0] == '/'
unfoldable pub relative : Bytes → Result Bytes
relative [] = panic
relative (c ∷ s) = ok (if c == slash then 46 ∷ c ∷ s else c ∷ s)

-- req.Header.Add("Content-Type", contentType)
abbrev pub add_content_type : Bytes → HttpRequest → HttpRequest
add_content_type content_type req = record req {
  header = req.header ++ (("Content-Type", content_type) ∷ []);
}

module _ (http : HttpLibrary) where
  -- from url.Parse to http.NewRequest, the same in every builder
  unfoldable pub operation_request : String → Bytes → Bytes → Option Bytes → Result HttpRequest
  unfolding relative
  operation_request method server path body = do
    server_url ← http.parse_url server
    operation_path ← relative path
    query_url ← http.resolve server_url operation_path
    http.new_request method (http.url_string query_url) body

  unfoldable pub new_post_api_auth_request_with_body :
      Bytes → Bytes → Option Bytes → Result HttpRequest
  new_post_api_auth_request_with_body server content_type body = do
    req ← operation_request "POST" server (codes "/api/auth") body
    ok (add_content_type content_type req)

  unfoldable pub new_get_api_buy_item_request : Bytes → String → Result HttpRequest
  new_get_api_buy_item_request server item = do
    path_param ← http.style_param item
    operation_request "GET" server (codes "/api/buy/" ++ path_param) none

  unfoldable pub new_get_api_health_request : Bytes → Result HttpRequest
  new_get_api_health_request server = operation_request "GET" server (codes "/api/health") none

  unfoldable pub new_get_api_info_request : Bytes → Result HttpRequest
  new_get_api_info_request server = operation_request "GET" server (codes "/api/info") none

  unfoldable pub new_post_api_send_coin_request_with_body :
      Bytes → Bytes → Option Bytes → Result HttpRequest
  new_post_api_send_coin_request_with_body server content_type body = do
    req ← operation_request "POST" server (codes "/api/sendCoin") body
    ok (add_content_type content_type req)

  module _ (json : JsonLibrary) where
    unfoldable pub new_post_api_auth_request : Bytes → AuthRequest → Result HttpRequest
    new_post_api_auth_request server body = do
      buf ← json.marshal_auth body
      new_post_api_auth_request_with_body server (codes "application/json") (some buf)

    unfoldable pub new_post_api_send_coin_request : Bytes → SendCoinRequest → Result HttpRequest
    new_post_api_send_coin_request server body = do
      buf ← json.marshal_send_coin body
      new_post_api_send_coin_request_with_body server (codes "application/json") (some buf)
