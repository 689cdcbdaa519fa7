-- ===== src/Server/Effects.antt =====
-- What the answers of the two handlers that move coins say of the tables.
use merch.Base.{◌≡◌, refl, ◌⊎◌, inl, Bool, true, false, some, String, str_eq, if◌then◌else◌}
use merch.Base.Int.{pos, leb_ℤ}
use merch.Go.Errors.{
  Error, errors_is, item_not_exist, not_enough, dst_user_not_found, src_user_and_dst_user_equal,
}
use merch.Postgres.Schema.{Uuid, Tables}
use merch.Postgres.Session.{Env, World, Action, pure, fail}
use merch.Postgres.Triples.{Ends, Ends-case_of}
use merch.Postgres.Pool.{Others, nobody, OthersKeep}
use merch.Ledger.Invariant.{IsConsistent}
use merch.Transfers.Transferer.{transfer_by_username}
use merch.Transfers.Atomicity.{IsSent, transfer_by_username-Ends}
use merch.Purchases.Purchaser.{purchase_by_name}
use merch.Purchases.Writes.{purchase_of}
use merch.Purchases.Atomicity.{IsBought, purchase_by_name-Ends}
use merch.Server.Responses.{SendCoinRequest, PostApiSendCoinResponse, GetApiBuyItemResponse}
use merch.Server.Handlers.{post_api_send_coin, send_error, get_api_buy_item, buy_error}

Ends-if :
    {A : Type 0} (Q : A → World → Type 0) (E : Error → World → Type 0) (b : Bool) (m n : Action A)
    (w : World)
    → (b ≡ true → Ends Q E (m w))
    → (b ≡ false → Ends Q E (n w))
    → Ends Q E ((if b then m else n) w)
Ends-if Q E true m n w h k = h refl
Ends-if Q E false m n w h k = k refl

module _ (env : Env) (id : Uuid) (body : SendCoinRequest) (t : Tables) where
  abbrev NotOrSent : World → Type 0
  NotOrSent v = Others env t v.tables ⊎ IsSent env body.to_user id body.amount t v.tables

  -- status 200 means that the coins have been sent
  abbrev pub Sends : PostApiSendCoinResponse → World → Type 0
  Sends (PostApiSendCoinResponse.ok200) v =
      (leb_ℤ body.amount (pos 0) ≡ false) × IsSent env body.to_user id body.amount t v.tables
  Sends (PostApiSendCoinResponse.error400 m) v = NotOrSent v
  Sends (PostApiSendCoinResponse.error401 m) v = NotOrSent v
  Sends (PostApiSendCoinResponse.error500 m) v = NotOrSent v

  abbrev pub SendFails : Error → World → Type 0
  SendFails _ v = NotOrSent v

  send_error-Ends :
      (e : Error) (v : World) → NotOrSent v → Ends Sends SendFails (send_error env e v)
  unfolding send_error
  send_error-Ends e v h =
      Ends-if Sends SendFails (errors_is e dst_user_not_found) (pure _) _ v (λ _. h)
        (λ _.
          Ends-if Sends SendFails (errors_is e src_user_and_dst_user_equal) (pure _) _ v (λ _. h)
            (λ _.
              Ends-if Sends SendFails (errors_is e not_enough) (pure _) (fail e) v (λ _. h)
                (λ _. h)))

  -- From consistent tables `t`, which other clients keep consistent, the handler of sendCoin,
  -- called for a user, does not panic. An answer of status 200 means that the amount was positive
  -- and that exactly this transfer, from that user to the user named in the body, has been
  -- committed, with other clients' changes only beside it. An answer of any other status, or an
  -- error, means that only other clients have changed the tables, or that the whole transfer is in
  -- them too.
  pub post_api_send_coin-Ends :
      (keep : OthersKeep IsConsistent env) (w : World)
      → IsConsistent t
      → w.tables ≡ t
      → Ends Sends SendFails (post_api_send_coin env (some id) body w)
  unfolding post_api_send_coin
  post_api_send_coin-Ends keep w c same =
      let h : NotOrSent w = inl (rw same nobody) in
      Ends-if Sends SendFails (str_eq body.to_user "") (pure _) _ w (λ _. h)
        (λ _.
          Ends-if Sends SendFails (leb_ℤ body.amount (pos 0)) (pure _) _ w (λ _. h)
            (λ positive.
              Ends-case_of (λ _ v. IsSent env body.to_user id body.amount t v.tables)
                (λ _ v. NotOrSent v) Sends SendFails
                (transfer_by_username env body.to_user id body.amount)
                (λ _. pure PostApiSendCoinResponse.ok200) (send_error env) w
                (transfer_by_username-Ends env body.to_user id body.amount t keep w c same)
                (λ _ v s. (positive, s)) send_error-Ends))

module _ (env : Env) (id : Uuid) (item_name : String) (t : Tables) where
  abbrev NotOrBought : World → Type 0
  NotOrBought v = Others env t v.tables ⊎ IsBought env item_name id t v.tables

  -- status 200 means that the item has been bought
  abbrev pub BuysItem : GetApiBuyItemResponse → World → Type 0
  BuysItem (GetApiBuyItemResponse.ok200) v = IsBought env item_name id t v.tables
  BuysItem (GetApiBuyItemResponse.error400 m) v = NotOrBought v
  BuysItem (GetApiBuyItemResponse.error401 m) v = NotOrBought v
  BuysItem (GetApiBuyItemResponse.error500 m) v = NotOrBought v

  abbrev pub BuyFails : Error → World → Type 0
  BuyFails _ v = NotOrBought v

  buy_error-Ends :
      (e : Error) (v : World) → NotOrBought v → Ends BuysItem BuyFails (buy_error env e v)
  unfolding buy_error
  buy_error-Ends e v h =
      Ends-if BuysItem BuyFails (errors_is e item_not_exist) (pure _) _ v (λ _. h)
        (λ _.
          Ends-if BuysItem BuyFails (errors_is e not_enough) (pure _) (fail e) v (λ _. h) (λ _. h))

  -- From consistent tables `t`, which other clients keep consistent, the handler of buy, called for
  -- a user, does not panic. An answer of status 200 means that exactly this purchase, by that user
  -- of the item with the given name, has been committed, with other clients' changes only beside
  -- it. An answer of any other status, or an error, means that only other clients have changed the
  -- tables, or that the whole purchase is in them too.
  pub get_api_buy_item-Ends :
      (keep : OthersKeep IsConsistent env) (w : World)
      → IsConsistent t
      → w.tables ≡ t
      → Ends BuysItem BuyFails (get_api_buy_item env (some id) item_name w)
  unfolding get_api_buy_item
  get_api_buy_item-Ends keep w c same =
      let h : NotOrBought w = inl (rw same nobody) in
      Ends-if BuysItem BuyFails (str_eq item_name "") (pure _) _ w (λ _. h)
        (λ _.
          Ends-case_of
            (λ p v. (b : IsBought env item_name id t v.tables) × (p ≡ purchase_of b.paid.row))
            (λ _ v. NotOrBought v) BuysItem BuyFails (purchase_by_name env item_name id)
            (λ _. pure GetApiBuyItemResponse.ok200) (buy_error env) w
            (purchase_by_name-Ends env item_name id t keep w c same) (λ _ v s. s.0) buy_error-Ends)
