-- ===== src/Server/History.antt =====
-- The coin history of the info response.
use merch.Base.{
  ◌≡◌, refl, sym, ap, ◌∙◌, Bool, List, [], ◌∷◌, ◌++◌, map, ◌==◌, if◌then◌else◌, Bool-cases, inl,
  inr,
}
use mathlib.Core.List.{append_assoc, append-nil}
use merch.Base.Lists.{filter}
use merch.Postgres.Schema.{Uuid}
use merch.Transfers.Model.{Transfer}
use merch.Server.Responses.{ReceivedHistoryItem, SentHistoryItem, InfoResponse}
use merch.Purchases.Model.{ItemCount}
use merch.Base.Int.{ℤ}
use merch.Server.Info.{add_transfer, histories, inventory_item, info_response}

abbrev pub received_item : Transfer → ReceivedHistoryItem
received_item t = record { amount = t.amount; from_user = t.src_username }

abbrev pub sent_item : Transfer → SentHistoryItem
sent_item t = record { amount = t.amount; to_user = t.dst_username }

abbrev pub received_by : Uuid → List Transfer → List ReceivedHistoryItem
received_by id ts = map received_item (filter (λ t. t.dst_user_id == id) ts)

abbrev pub sent_by : Uuid → List Transfer → List SentHistoryItem
sent_by id ts = map sent_item (filter (λ t. t.src_user_id == id) ts)

append_if :
    {A B : Type 0} (p : A → Bool) (f : A → B) (x : A) (xs : List A) (acc : List B)
    → (if p x then acc ++ (f x ∷ []) else acc) ++ map f (filter p xs)
      ≡ acc ++ map f (filter p (x ∷ xs))
unfolding filter
append_if p f x xs acc = elim (Bool-cases (p x)) [
  | inl holds ↦ rw holds (append_assoc acc (f x ∷ []) (map f (filter p xs)))
  | inr fails ↦ rw fails refl
]

both : {A B : Type 0} {a c : A} {b d : B} → a ≡ c → b ≡ d → ◌≡◌ {A = A × B} (a, b) (c, d)
both p q i = (p i, q i)

histories_lem :
    (id : Uuid) (ts : List Transfer) (r : List ReceivedHistoryItem) (s : List SentHistoryItem)
    → histories id (r, s) ts ≡ (r ++ received_by id ts, s ++ sent_by id ts)
unfolding histories add_transfer filter
histories_lem id [] r s = both (sym (append-nil r)) (sym (append-nil s))
histories_lem id (t ∷ ts) r s =
    histories_lem id ts _ _
    ∙ both (append_if (λ x. x.dst_user_id == id) received_item t ts r)
        (append_if (λ x. x.src_user_id == id) sent_item t ts s)

-- The info response that the loop over the transfers builds has, in the transfers' order, as
-- received exactly those to the user with their senders' names and amounts, as sent exactly those
-- from the user with their receivers' names and amounts; and it has the balance, and the item
-- counts as inventory.
pub info_response_lem :
    (id : Uuid) (items : List ItemCount) (ts : List Transfer) (balance : ℤ)
    → info_response id items ts balance ≡ record {
      received = received_by id ts;
      sent = sent_by id ts;
      coins = balance;
      inventory = map inventory_item items;
    }
unfolding info_response
info_response_lem id items ts balance =
    ap
      (λ h.
        let r : InfoResponse = record {
          received = h.0;
          sent = h.1;
          coins = balance;
          inventory = map inventory_item items;
        } in
        r)
      (histories_lem id ts [] [])
