-- ===== src/Tests/Wire.antt =====
-- A text format, a library of URLs and a network, for the theorems on the client.
use merch.Base.{
  String, ◌≡◌, refl, ap, Bool, true, Option, none, some, List, [], ◌∷◌, ◌++◌, ◌==◌, if◌then◌else◌,
}
use merch.Base.Int.{pos, negsuc}
use merch.Go.Errors.{Result, ok, err, other}
use merch.Go.Strings.{codes}
use merch.Go.Substrings.{slash}
use merch.Postgres.Schema.{Bytes}
use merch.Server.Responses.{AuthRequest, SendCoinRequest, InfoResponse}
use merch.Server.Middleware.{Decoded, decoded, undecodable}
use merch.Client.Payloads.{InfoPayload, info_payload, JsonLibrary}
use merch.Client.Requests.{HttpLibrary}
use merch.Client.{with_slash}
use merch.Go.Substrings.{ends_in_slash}
use merch.Client.Network.{Wire, IsReachable}
use merch.Client.Expected.{ErrorsCross}
use merch.Tests.Json.{text_of, text_of-codes}

abbrev pub collate : String → String → Bool
collate a b = true

abbrev encode_text : Option String → Bytes
encode_text none = []
encode_text (some s) = 1 ∷ codes s

abbrev decode_text : Bytes → Option String
decode_text [] = none
decode_text (c ∷ s) = some (text_of s)

decode_text-encode_text : (o : Option String) → decode_text (encode_text o) ≡ o
decode_text-encode_text none = refl
decode_text-encode_text (some s) = ap some (text_of-codes s)

abbrev decode_bytes : Bytes → Option Bytes
decode_bytes [] = none
decode_bytes (c ∷ s) = some s

abbrev encode_bytes : Option Bytes → Bytes
encode_bytes none = []
encode_bytes (some s) = 1 ∷ s

-- a body's name and password, around a zero
abbrev login_of : Bytes → Bytes → Decoded AuthRequest
login_of name [] = undecodable "EOF"
login_of name (c ∷ s) =
    let rest = login_of (name ++ (c ∷ [])) s in
    if c == 0 then decoded (record { username = text_of name; password = s }) else rest

abbrev login_text : Option Bytes → Decoded AuthRequest
login_text none = undecodable "EOF"
login_text (some s) = login_of [] s

abbrev sending_text : Option Bytes → Decoded SendCoinRequest
sending_text none = undecodable "EOF"
sending_text (some []) = undecodable "EOF"
sending_text (some (c ∷ s)) = decoded (record { amount = pos c; to_user = text_of s })

abbrev marshal_sending : SendCoinRequest → Result Bytes
marshal_sending r = elim r.amount [
  | pos n ↦ ok (n ∷ codes r.to_user)
  | negsuc n ↦ err (other "unsupported")
]

abbrev no_info : InfoPayload
no_info = record { coin_history = none; coins = none; inventory = none }

-- It reads no information but that of a user without history and with 1000 coins.
abbrev pub newcomer : InfoResponse
newcomer = record { received = []; sent = []; coins = pos 1000; inventory = [] }

abbrev pub json : JsonLibrary
json = record {
  marshal_auth = λ b. ok (codes b.username ++ (0 ∷ b.password));
  decode_auth = login_text;
  marshal_send_coin = marshal_sending;
  decode_send_coin = sending_text;
  encode_auth = λ r. encode_bytes r.token;
  unmarshal_auth = λ b. ok (record { token = decode_bytes b });
  encode_error = λ r. encode_text r.errors;
  unmarshal_error = λ b. ok (record { errors = decode_text b });
  encode_health = λ r. encode_text r.status;
  unmarshal_health = λ b. ok (record { status = decode_text b });
  encode_info = λ r. [];
  unmarshal_info = λ b. ok (info_payload newcomer);
}

pub json-ErrorsCross : ErrorsCross json
json-ErrorsCross e = rw (decode_text-encode_text e.errors) refl

abbrev drop_two : Bytes → Bytes
drop_two (a ∷ b ∷ s) = s
drop_two s = []

abbrev pub http : HttpLibrary
http = record {
  Url = Bytes;
  parse_url = λ s. ok s;
  resolve = λ base path. ok (base ++ drop_two path);
  url_string = λ u. u;
  new_request = λ m u b. ok (record { method = m; url = u; header = []; body = b });
  style_param = λ item. ok (codes item);
}

abbrev segments : Bytes → Bytes → List String
segments part [] = text_of part ∷ []
segments part (c ∷ s) =
    let longer = segments (part ++ (c ∷ [])) s in
    let closed = segments [] s in if c == slash then text_of part ∷ closed else longer

-- without the scheme and the host
abbrev path_segments : List String → List String
path_segments (scheme ∷ nothing ∷ host ∷ path) = path
path_segments path = []

abbrev pub wire : Wire
wire = record {
  status_text = λ n. "";
  error_text = λ e. "error";
  path_of = λ u. path_segments (segments [] u);
}

-- "http://shop"
abbrev pub shop_url : Bytes
shop_url = codes "http://shop"

abbrev pub reach :
    (path : Bytes)
    → IsReachable http wire
        (with_slash shop_url)
        path
        (path_segments (segments [] (codes "http://shop/" ++ drop_two path)))
unfolding with_slash ends_in_slash
reach path = record {
  base = codes "http://shop/";
  parsed = refl;
  target = codes "http://shop/" ++ drop_two path;
  resolved = refl;
  requested = λ m b. refl;
  reached = refl;
}
