-- ===== src/Client/Payloads.antt =====
-- The JSON values of api/merch/merch.gen.go, with a pointer that may be nil as an option, and
-- encoding/json at each of their types.
use merch.Base.{String, Option, some, List, map}
use merch.Base.Int.{ℤ, pos}
use merch.Go.Errors.{Result}
use merch.Postgres.Schema.{Bytes}
use merch.Server.Middleware.{Decoded}
use merch.Server.Responses.{AuthRequest, SendCoinRequest, InfoResponse}

pub record AuthResponse : Type 0 where
  pub token : Option Bytes

pub record ErrorResponse : Type 0 where
  pub errors : Option String

pub record HealthResponse : Type 0 where
  pub status : Option String

-- the structs inside of InfoResponse
pub record ReceivedEntry : Type 0 where
  pub amount : Option ℤ
  pub from_user : Option String

pub record SentEntry : Type 0 where
  pub amount : Option ℤ
  pub to_user : Option String

pub record CoinHistory : Type 0 where
  pub received : Option (List ReceivedEntry)
  pub sent : Option (List SentEntry)

pub record InventoryEntry : Type 0 where
  pub quantity : Option ℤ
  pub entry_type : Option String

-- InfoResponse, as it crosses the network
pub record InfoPayload : Type 0 where
  pub coin_history : Option CoinHistory
  pub coins : Option ℤ
  pub inventory : Option (List InventoryEntry)

-- the response of the handler, which leaves no pointer nil
unfoldable pub info_payload : InfoResponse → InfoPayload
info_payload i = record {
  coin_history = some (record {
    received =
        some
          (map (λ e. record { amount = some e.amount; from_user = some e.from_user }) i.received);
    sent = some (map (λ e. record { amount = some e.amount; to_user = some e.to_user }) i.sent);
  });
  coins = some i.coins;
  inventory = some (
      map (λ e. record { quantity = some (pos e.quantity); entry_type = some e.item_type })
        i.inventory);
}

-- encoding/json: json.Marshal and the text that a Decoder reads, on the way to the server;
-- Encoder.Encode and json.Unmarshal, on the way back
pub record JsonLibrary : Type 0 where
  pub marshal_auth : AuthRequest → Result Bytes
  pub decode_auth : Option Bytes → Decoded AuthRequest
  pub marshal_send_coin : SendCoinRequest → Result Bytes
  pub decode_send_coin : Option Bytes → Decoded SendCoinRequest
  pub encode_auth : AuthResponse → Bytes
  pub unmarshal_auth : Bytes → Result AuthResponse
  pub encode_error : ErrorResponse → Bytes
  pub unmarshal_error : Bytes → Result ErrorResponse
  pub encode_health : HealthResponse → Bytes
  pub unmarshal_health : Bytes → Result HealthResponse
  pub encode_info : InfoPayload → Bytes
  pub unmarshal_info : Bytes → Result InfoPayload
