-- ===== src/Client/Options.antt =====
-- What the options and the editors of the client come to.
use merch.Base.{◌≡◌, refl, sym, ap, inl, inr, true, Bool-cases, some, List, [], ◌∷◌, ◌++◌}
use merch.Go.Errors.{Result, ok, err, panic}
use merch.Go.Results.{◌>>=◌, >>=-eq-ok, ok_value}
use merch.Go.Substrings.{ends_in_slash, ends_in_slash-append}
use merch.Postgres.Schema.{Bytes}
use merch.Postgres.Session.{World, continue}
use merch.Client.{
  HttpRequest, RequestEditorFn, HttpRequestDoer, Client, ClientOption, apply_options, with_slash,
  doer_or, with_http_client, new_client,
}
use merch.Server.Middleware.{Request, HttpAction}
use merch.Client.Payloads.{JsonLibrary}
use merch.Client.Network.{Wire, network, connected}
use merch.Client.Calls.{edited, apply_editors, do_request, send}

with_slash-ends : (server : Bytes) → ends_in_slash (with_slash server) ≡ true
unfolding with_slash
with_slash-ends server = elim (Bool-cases (ends_in_slash server)) [
  | inl e ↦ rw (e, e) refl
  | inr e ↦ rw e (ends_in_slash-append server)
]

pub new_client-IsReady :
    (default_doer : HttpRequestDoer) (server : Bytes) (opts : List ClientOption) (c : Client)
    → new_client default_doer server opts ≡ ok c
    → (ends_in_slash c.server ≡ true) × ((doer : HttpRequestDoer) × (c.client ≡ some doer))
unfolding new_client
new_client-IsReady default_doer server opts c e =
    let (b, _, f) = >>=-eq-ok (apply_options opts _) _ c e in
    let g = ok_value f in
    (
      rw (sym (ap (λ x. x.server) g)) (with_slash-ends b.server),
      (doer_or default_doer b.client, sym (ap (λ x. x.client) g)),
    )

-- The options are applied in their order; the first that fails decides.
pub apply_options-append :
    (xs ys : List ClientOption) (c : Client)
    → apply_options (xs ++ ys) c ≡ (apply_options xs c >>= apply_options ys)
unfolding apply_options
apply_options-append [] ys c = refl
apply_options-append (o ∷ xs) ys c = rest (o c) (λ b. apply_options-append xs ys b)
  where
    rest :
        (r : Result Client)
        → ((b : Client) → apply_options (xs ++ ys) b ≡ (apply_options xs b >>= apply_options ys))
        → (r >>= apply_options (xs ++ ys)) ≡ (r >>= apply_options xs >>= apply_options ys)
    rest (ok b) h = h b
    rest (err e) h = refl
    rest panic h = refl

-- The editors of the client come before those of the call.
edited-append :
    (xs ys : List RequestEditorFn) (req : HttpRequest) (w : World)
    → edited (xs ++ ys) req w ≡ continue (edited xs req w) (edited ys)
unfolding edited
edited-append [] ys req w = refl
edited-append (r ∷ xs) ys req w = rest (r req w) (edited-append xs ys)
  where
    rest :
        (x : Result HttpRequest × World)
        → ((q : HttpRequest) (v : World)
            → edited (xs ++ ys) q v ≡ continue (edited xs q v) (edited ys))
        → continue x (edited (xs ++ ys)) ≡ continue (continue x (edited xs)) (edited ys)
    rest (ok q, v) h = h q v
    rest (err e, v) h = refl
    rest (panic, v) h = refl

pub send-edited :
    (c : Client) (req : HttpRequest) (req_editors : List RequestEditorFn) (w : World)
    → send c (ok req) req_editors w
      ≡ continue (edited (c.request_editors ++ req_editors) req w) (do_request c.client)
unfolding send apply_editors
send-edited c req req_editors w = rw (edited-append c.request_editors req_editors req w) refl

-- The client that the other theorems speak of.
new_client-connected :
    (json : JsonLibrary) (wire : Wire) (handler : Request → HttpAction)
    (default_doer : HttpRequestDoer) (server : Bytes)
    → new_client default_doer server (with_http_client (network json wire handler) ∷ [])
      ≡ ok (connected json wire handler server)
unfolding new_client apply_options with_http_client
new_client-connected json wire handler default_doer server = refl
