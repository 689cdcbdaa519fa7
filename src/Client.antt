-- ===== src/Client.antt =====
-- api/merch/merch.gen.go: the client, its options and what it sends and gets. net/http and net/url
-- are parameters; a context is passed on and has no part in the model.
pub mod Payloads
pub mod Requests
pub mod Replies
pub mod Parsers
pub mod Calls
pub mod Network
pub mod Options
pub mod Fields
pub mod Expected
pub mod RoundTrip
pub mod Remote
use merch.Base.{
  ℕ, String, ◌≡◌, refl, inl, inr, Bool, true, false, Bool-cases, Option, none, some, List, [], ◌∷◌,
  ◌++◌, if◌then◌else◌, arith,
}
use merch.Go.Errors.{Result, ok, err, panic}
use merch.Go.Results.{◌>>=◌, >>=-eq-ok}
use merch.Go.Substrings.{slash, ends_in_slash, ends_in_slash-append}
use merch.Postgres.Schema.{Bytes}
use merch.Postgres.Session.{Action}

-- http.Request: the URL as a text, and the header's lines in the order in which they were added
pub record HttpRequest : Type 0 where
  pub method : String
  pub url : Bytes
  pub header : List (String × Bytes)
  pub body : Option Bytes

-- http.Response: `content_type` is what Header.Get("Content-Type") gives, `body` what io.ReadAll
-- gives.
pub record HttpResponse : Type 0 where
  pub status : String
  pub status_code : ℕ
  pub content_type : Bytes
  pub body : Result Bytes

-- RequestEditorFn: the request as it leaves it, or an error
abbrev pub RequestEditorFn : Type 0
RequestEditorFn = HttpRequest → Action HttpRequest

-- HttpRequestDoer: its method Do
abbrev pub HttpRequestDoer : Type 0
HttpRequestDoer = HttpRequest → Action HttpResponse

pub record Client : Type 0 where
  pub server : Bytes
  -- nil until an option sets it
  pub client : Option HttpRequestDoer
  pub request_editors : List RequestEditorFn

abbrev pub ClientOption : Type 0
ClientOption = Client → Result Client

-- for _, o := range opts
unfoldable pub apply_options : List ClientOption → Client → Result Client
apply_options [] c = ok c
apply_options (o ∷ opts) c = o c >>= apply_options opts

unfoldable pub with_slash : Bytes → Bytes
with_slash server = if ends_in_slash server then server else server ++ (slash ∷ [])

abbrev pub doer_or : HttpRequestDoer → Option HttpRequestDoer → HttpRequestDoer
doer_or d none = d
doer_or d (some doer) = doer

unfoldable pub with_http_client : HttpRequestDoer → ClientOption
with_http_client doer c = ok (record c { client = some doer })

unfoldable pub with_request_editor_fn : RequestEditorFn → ClientOption
with_request_editor_fn fn c = ok (record c { request_editors = c.request_editors ++ (fn ∷ []) })

module _ {Url : Type 0} (parse_url : Bytes → Result Url) (url_string : Url → Bytes) where
  unfoldable pub with_base_url : Bytes → ClientOption
  with_base_url base_url c = do
    new_base_url ← parse_url base_url
    ok (record c { server = url_string new_base_url })

-- `default_doer` is a new http.Client.
module _ (default_doer : HttpRequestDoer) where
  unfoldable pub new_client : Bytes → List ClientOption → Result Client
  unfolding with_slash
  new_client server opts = do
    c ← apply_options opts (record { server = server; client = none; request_editors = [] })
    ok (record c { server = with_slash c.server; client = some (doer_or default_doer c.client) })
