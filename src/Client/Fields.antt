-- ===== src/Client/Fields.antt =====
-- What the fields of a reply say of the response that it has been read from.
use merch.Base.{
  ℕ, ◌≡◌, refl, subst, ◌==◌, inl, inr, true, false, Bool-cases, of_then, of_else, Option, none,
  some, arith,
}
use merch.Go.Errors.{Result, ok}
use merch.Go.Results.{◌>>=◌, >>=-eq-ok, ok_value}
use merch.Postgres.Schema.{Bytes}
use merch.Client.{HttpResponse}
use merch.Client.Payloads.{JsonLibrary}
use merch.Client.Replies.{AuthReply}
use merch.Client.Parsers.{is_json, auth_case, parse_post_api_auth_response}

-- A field is set if the response is JSON of its status, and then it holds the body's value;
-- otherwise it is nil.
abbrev IsField : {A : Type 0} → (Bytes → Result A) → HttpResponse → ℕ → Bytes → Option A → Type 0
IsField unmarshal rsp status body none = is_json rsp status ≡ false
IsField unmarshal rsp status body (some a) = (is_json rsp status ≡ true) × (unmarshal body ≡ ok a)

pub record IsReadFrom (json : JsonLibrary) (rsp : HttpResponse) (reply : AuthReply) : Type 0 where
  pub body : rsp.body ≡ ok reply.body
  pub response : reply.http_response ≡ some rsp
  pub field200 : IsField json.unmarshal_auth rsp 200 reply.body reply.json200
  pub field400 : IsField json.unmarshal_error rsp 400 reply.body reply.json400
  pub field401 : IsField json.unmarshal_error rsp 401 reply.body reply.json401
  pub field500 : IsField json.unmarshal_error rsp 500 reply.body reply.json500

other_status :
    (rsp : HttpResponse) (m n : ℕ) → is_json rsp m ≡ true → (m == n) ≡ false → is_json rsp n ≡ false
unfolding is_json
other_status rsp m n e d = ground arith

abbrev blank : HttpResponse → Bytes → AuthReply
blank rsp b = record {
  body = b;
  http_response = some rsp;
  json200 = none;
  json400 = none;
  json401 = none;
  json500 = none;
}

module _ (json : JsonLibrary) (rsp : HttpResponse) (b : Bytes) (read : rsp.body ≡ ok b)
    (reply : AuthReply) where
  case200 :
      is_json rsp 200 ≡ true
      → (json.unmarshal_auth b >>= λ d. ok (record (blank rsp b) { json200 = some d })) ≡ ok reply
      → IsReadFrom json rsp reply
  case200 e f =
      let (d, u, g) = >>=-eq-ok (json.unmarshal_auth b) _ reply f in
      subst (IsReadFrom json rsp) (ok_value g) (record {
        body = read;
        response = refl;
        field200 = (e, u);
        field400 = other_status rsp 200 400 e refl;
        field401 = other_status rsp 200 401 e refl;
        field500 = other_status rsp 200 500 e refl;
      })

  case400 :
      is_json rsp 400 ≡ true
      → (json.unmarshal_error b >>= λ d. ok (record (blank rsp b) { json400 = some d })) ≡ ok reply
      → IsReadFrom json rsp reply
  case400 e f =
      let (d, u, g) = >>=-eq-ok (json.unmarshal_error b) _ reply f in
      subst (IsReadFrom json rsp) (ok_value g) (record {
        body = read;
        response = refl;
        field200 = other_status rsp 400 200 e refl;
        field400 = (e, u);
        field401 = other_status rsp 400 401 e refl;
        field500 = other_status rsp 400 500 e refl;
      })

  case401 :
      is_json rsp 401 ≡ true
      → (json.unmarshal_error b >>= λ d. ok (record (blank rsp b) { json401 = some d })) ≡ ok reply
      → IsReadFrom json rsp reply
  case401 e f =
      let (d, u, g) = >>=-eq-ok (json.unmarshal_error b) _ reply f in
      subst (IsReadFrom json rsp) (ok_value g) (record {
        body = read;
        response = refl;
        field200 = other_status rsp 401 200 e refl;
        field400 = other_status rsp 401 400 e refl;
        field401 = (e, u);
        field500 = other_status rsp 401 500 e refl;
      })

  case500 :
      is_json rsp 500 ≡ true
      → (json.unmarshal_error b >>= λ d. ok (record (blank rsp b) { json500 = some d })) ≡ ok reply
      → IsReadFrom json rsp reply
  case500 e f =
      let (d, u, g) = >>=-eq-ok (json.unmarshal_error b) _ reply f in
      subst (IsReadFrom json rsp) (ok_value g) (record {
        body = read;
        response = refl;
        field200 = other_status rsp 500 200 e refl;
        field400 = other_status rsp 500 400 e refl;
        field401 = other_status rsp 500 401 e refl;
        field500 = (e, u);
      })

  no_case :
      is_json rsp 200 ≡ false
      → is_json rsp 400 ≡ false
      → is_json rsp 401 ≡ false
      → is_json rsp 500 ≡ false
      → ◌≡◌ {A = Result AuthReply} (ok (blank rsp b)) (ok reply)
      → IsReadFrom json rsp reply
  no_case e200 e400 e401 e500 f = subst (IsReadFrom json rsp) (ok_value f) (record {
    body = read;
    response = refl;
    field200 = e200;
    field400 = e400;
    field401 = e401;
    field500 = e500;
  })

  auth_case-IsReadFrom : auth_case json rsp (blank rsp b) ≡ ok reply → IsReadFrom json rsp reply
  unfolding auth_case
  auth_case-IsReadFrom f = elim (Bool-cases (is_json rsp 200)) [
    | inl e200 ↦ case200 e200 (of_then _ _ _ _ e200 f)
    | inr e200 ↦
        let g400 = of_else _ _ _ _ e200 f in
        elim (Bool-cases (is_json rsp 400)) [
          | inl e400 ↦ case400 e400 (of_then _ _ _ _ e400 g400)
          | inr e400 ↦
              let g401 = of_else _ _ _ _ e400 g400 in
              elim (Bool-cases (is_json rsp 401)) [
                | inl e401 ↦ case401 e401 (of_then _ _ _ _ e401 g401)
                | inr e401 ↦
                    let g500 = of_else _ _ _ _ e401 g401 in
                    elim (Bool-cases (is_json rsp 500)) [
                      | inl e500 ↦ case500 e500 (of_then _ _ _ _ e500 g500)
                      | inr e500 ↦ no_case e200 e400 e401 e500 (of_else _ _ _ _ e500 g500)
                    ]
              ]
        ]
  ]

-- Whatever response ParsePostAPIAuthResponse reads a reply from, the reply holds the response and
-- its body; a field is set exactly if the response is JSON of the field's status, and then holds
-- the body's value.
pub parse_post_api_auth_response-IsReadFrom :
    (json : JsonLibrary) (rsp : HttpResponse) (reply : AuthReply)
    → parse_post_api_auth_response json rsp ≡ ok reply
    → IsReadFrom json rsp reply
unfolding parse_post_api_auth_response
parse_post_api_auth_response-IsReadFrom json rsp reply e =
    let (b, read, f) = >>=-eq-ok rsp.body _ reply e in auth_case-IsReadFrom json rsp b read reply f
