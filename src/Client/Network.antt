-- ===== src/Client/Network.antt =====
-- The client of api/merch/merch.gen.go at the server of cmd/server: what net/http hands from one
-- to the other. The editor is `authorization` of tests/e2e/server_test.go.
use Prim.Native.String
use merch.Base.{ℕ, String, ◌≡◌, not, Option, none, some, List, [], ◌∷◌, ◌++◌, str_eq, if◌then◌else◌}
use merch.Base.Lists.{filter}
use merch.Go.Errors.{Error, other, Result, ok, err}
use merch.Go.Strings.{codes}
use merch.Postgres.Schema.{Bytes}
use merch.Postgres.Session.{World, pure}
use merch.Server.Responses.{Body, Response}
use merch.Server.Middleware.{Request, HttpAction, bearer}
use merch.Client.{HttpRequest, HttpResponse, RequestEditorFn, HttpRequestDoer, Client, with_slash}
use merch.Client.Payloads.{JsonLibrary, info_payload}
use merch.Client.Requests.{HttpLibrary}

abbrev json_type : Bytes
json_type = codes "application/json"

-- the first line with a name; the empty text where there is none
unfoldable pub header_get : String → List (String × Bytes) → Bytes
header_get name [] = []
header_get name ((n, v) ∷ header) = if str_eq n name then v else header_get name header

-- Header.Set
unfoldable pub header_set : String → Bytes → List (String × Bytes) → List (String × Bytes)
header_set name v header = (name, v) ∷ filter (λ l. not (str_eq l.0 name)) header

unfoldable pub authorization : Bytes → RequestEditorFn
unfolding header_set
authorization token req =
    pure (record req { header = header_set "Authorization" (bearer ++ (32 ∷ token)) req.header })

-- What is not in the program's text: http.StatusText, an error's text, and the segments of the path
-- that ServeMux reads from a URL.
pub record Wire : Type 0 where
  pub status_text : ℕ → String
  pub error_text : Error → String
  pub path_of : Bytes → List String

module _ (json : JsonLibrary) (wire : Wire) where
  -- the bytes that the handler has written
  unfoldable pub body_bytes : Body → Bytes
  body_bytes Body.empty = []
  body_bytes (Body.errors m) = json.encode_error (record { errors = some m })
  body_bytes (Body.header_error e) =
      json.encode_error
        (record { errors = some (String.◌++◌ "Authorization header: " (wire.error_text e)) })
  body_bytes (Body.token t) = json.encode_auth (record { token = some t })
  body_bytes (Body.health s) = json.encode_health (record { status = some s })
  body_bytes (Body.plain s) = codes s ++ (10 ∷ [])
  body_bytes (Body.info i) = json.encode_info (info_payload i)

  unfoldable pub content_type_of : Body → Bytes
  content_type_of Body.empty = []
  content_type_of (Body.plain s) = codes "text/plain; charset=utf-8"
  content_type_of _ = json_type

  unfoldable pub to_client : Response → HttpResponse
  unfolding body_bytes content_type_of
  to_client r = record {
    status = wire.status_text r.status;
    status_code = r.status;
    content_type = content_type_of r.body;
    body = ok (body_bytes r.body);
  }

  unfoldable pub to_server : HttpRequest → Request
  unfolding header_get
  to_server req = record {
    method = req.method;
    path = wire.path_of req.url;
    authorization = header_get "Authorization" req.header;
    auth_body = json.decode_auth req.body;
    send_coin_body = json.decode_send_coin req.body;
  }

  abbrev pub connection_closed : Error
  connection_closed = other "EOF"

  -- without an answer the connection is closed
  unfoldable pub answered : Option Response × World → Result HttpResponse × World
  answered (none, w) = (err connection_closed, w)
  answered (some r, w) = (ok (to_client r), w)

  -- an http.Client that reaches the handler
  unfoldable pub network : (Request → HttpAction) → HttpRequestDoer
  network handler req w = answered (handler (to_server req) w)

  -- what NewClient makes of a server's URL and this http.Client
  abbrev pub connected : (Request → HttpAction) → Bytes → Client
  connected handler server = record {
    server = with_slash server;
    client = some (network handler);
    request_editors = [];
  }

-- The server's URL and an operation's relative path name a request with these segments.
pub record IsReachable (http : HttpLibrary) (wire : Wire) (server path : Bytes)
    (segments : List String) : Type 0 where
  pub base : http.Url
  pub parsed : http.parse_url server ≡ ok base
  pub target : http.Url
  pub resolved : http.resolve base path ≡ ok target
  pub requested :
      (method : String) (body : Option Bytes)
      → http.new_request method (http.url_string target) body
        ≡ ok (record { method = method; url = http.url_string target; header = []; body = body })
  pub reached : wire.path_of (http.url_string target) ≡ segments
