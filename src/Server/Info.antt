-- ===== src/Server/Info.antt =====
-- cmd/server/info.go
use merch.Base.{String, Bool, Option, List, [], ◌∷◌, ◌++◌, map, ◌==◌, if◌then◌else◌}
use merch.Base.Int.{ℤ}
use merch.Postgres.Schema.{Uuid}
use merch.Postgres.Session.{Env, Action, pool, pure, ◌>>=◌}
use merch.Coins.{get_balance}
use merch.Transfers.Model.{Transfer}
use merch.Transfers.Getter.{get_transfers_by_user_id}
use merch.Purchases.Model.{ItemCount}
use merch.Purchases.Getter.{get_item_counts_by_user_id}
use merch.Server.Responses.{
  ReceivedHistoryItem, SentHistoryItem, InventoryItem, InfoResponse, GetApiInfoResponse,
}
use merch.Server.Handlers.{with_user_id}

-- One round of the loop over the transfers: what has been received and sent so far.
unfoldable pub add_transfer :
    Uuid
    → List ReceivedHistoryItem × List SentHistoryItem
    → Transfer
    → List ReceivedHistoryItem × List SentHistoryItem
add_transfer user_id (received, sent) t = (
  (if t.dst_user_id == user_id
      then received ++ (record { amount = t.amount; from_user = t.src_username } ∷ [])
      else received),
  (if t.src_user_id == user_id
      then sent ++ (record { amount = t.amount; to_user = t.dst_username } ∷ [])
      else sent),
)

-- for _, t := range transfers
unfoldable pub histories :
    Uuid
    → List ReceivedHistoryItem × List SentHistoryItem
    → List Transfer
    → List ReceivedHistoryItem × List SentHistoryItem
histories user_id acc [] = acc
histories user_id acc (t ∷ ts) = histories user_id (add_transfer user_id acc t) ts

abbrev pub inventory_item : ItemCount → InventoryItem
inventory_item ic = record { quantity = ic.count; item_type = ic.item_name }

-- the response from what the three getters return
unfoldable pub info_response : Uuid → List ItemCount → List Transfer → ℤ → InfoResponse
info_response user_id item_counts transfers balance =
    let (received, sent) = histories user_id ([], []) transfers in
    record {
      received = received;
      sent = sent;
      coins = balance;
      inventory = map inventory_item item_counts;
    }

module _ (collate : String → String → Bool) (env : Env) where
  unfoldable pub get_api_info : Option Uuid → Action GetApiInfoResponse
  get_api_info context = with_user_id context λ user_id. do
    item_counts ← get_item_counts_by_user_id collate env pool user_id
    transfers ← get_transfers_by_user_id env pool user_id
    balance ← get_balance env pool user_id
    pure (GetApiInfoResponse.ok200 (info_response user_id item_counts transfers balance))
