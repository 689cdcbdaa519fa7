-- ===== src/Purchases/Outcome.antt =====
-- What a purchase does to the tables, by how it ends.
use merch.Base.{◌≡◌, refl, ◌∙◌, subst, ◌⊎◌, inl, inr, some, Bool-cases, if◌then◌else◌}
use merch.Base.Int.{pos, ◌-ℤ◌, ◌≤ℤ◌, ltb_ℤ}
use merch.Go.Errors.{Error, not_enough}
use merch.Go.Words.{wrap64}
use merch.Postgres.Schema.{Uuid, UserRow, PurchaseRow, Tables}
use merch.Postgres.Session.{Env, World, Action, tx, fail_with}
use merch.Postgres.Triples.{Ends, Ends-then, Ends-mono}
use merch.Postgres.Transactions.{InTx, Kept, Yields-mono, done_parts, query_then-Ends}
use merch.Users.Model.{User}
use merch.Users.Getter.{exactly_one_user, select_user_by_id}
use merch.Users.Lookup.{IsWithId, IsWithId-Yields}
use merch.Items.{Item}
use merch.Ledger.Accounts.{find}
use merch.Ledger.Invariant.{IsAmount, IsConsistent, balance-IsAmount, wrap64-sub, covered_of}
use merch.Ledger.Change.{Change, purchase, purchased}
use merch.Purchases.Model.{Purchase}
use merch.Purchases.Purchaser.{
  new_purchase_row, get_user_for_update, record_purchase, purchase_in_tx,
}
use merch.Purchases.Writes.{purchase_of, IsWritten, record_purchase-Ends}

-- `t'` is `t` after `user` has paid for the item `i`.
pub record IsPurchase (user : Uuid) (i : Item) (t t' : Tables) : Type 0 where
  pub buyer : UserRow
  pub row : PurchaseRow
  pub row_user : row.user_id ≡ user
  pub row_item : row.item_id ≡ i.id
  pub row_amount : row.amount ≡ i.price
  pub buyer_found : find user t.users ≡ some buyer
  pub price_fits : IsAmount i.price
  pub covered : i.price ≤ℤ buyer.balance
  pub result : t' ≡ purchased buyer row t

pub IsPurchase-Change :
    (user : Uuid) (i : Item) (t t' : Tables) → IsPurchase user i t t' → Change t t'
IsPurchase-Change user i t t' m =
    purchase m.buyer m.row (rw m.row_user m.buyer_found) (rw m.row_amount m.price_fits)
      (rw m.row_amount m.covered) m.result

module _ (user : Uuid) (i : Item) (u : UserRow) (t t' : Tables) (eu : find user t.users ≡ some u)
    (hu : IsAmount u.balance) where
  pub written-IsPurchase :
      (w : IsWritten user i (wrap64 (u.balance -ℤ i.price)) t t')
      → (m : IsPurchase user i t t') × (m.row ≡ new_purchase_row w.values user i.id i.price)
  written-IsPurchase w =
      let sub = wrap64-sub u.balance i.price hu w.price_fits in
      (
        record {
          buyer = u;
          row = new_purchase_row w.values user i.id i.price;
          row_user = refl;
          row_item = refl;
          row_amount = refl;
          buyer_found = eu;
          price_fits = w.price_fits;
          covered = covered_of u.balance i.price (subst IsAmount sub w.balance_fits);
          result = rw (w.result, sub);
        },
        refl,
      )

module _ (env : Env) (user : Uuid) (i : Item) (t : Tables) where
  abbrev pub Buys : Purchase → World → Type 0
  Buys p w = (m : IsPurchase user i t w.tables) × (p ≡ purchase_of m.row)

  abbrev pub BuysOrNot : Error → World → Type 0
  BuysOrNot _ w = (w.tables ≡ t) ⊎ IsPurchase user i t w.tables

  writes-Ends :
      (u : UserRow) (w : World)
      → find user t.users ≡ some u
      → IsAmount u.balance
      → w.tables ≡ t
      → w.pending ≡ some t
      → Ends Buys BuysOrNot (record_purchase env user i (wrap64 (u.balance -ℤ i.price)) w)
  writes-Ends u w eu hu same p =
      let b = wrap64 (u.balance -ℤ i.price) in
      Ends-mono
        (λ q v.
          (h : IsWritten user i b t v.tables) × (q
            ≡ purchase_of (new_purchase_row h.values user i.id i.price)))
        Buys (λ _ v. (v.tables ≡ w.tables) ⊎ IsWritten user i b t v.tables) BuysOrNot
        (record_purchase env user i b w)
        (λ q v (h, e). let m = written-IsPurchase user i u t v.tables eu hu h in (m.0, rw m.1 e))
        (λ _ v h. elim h [
          | inl kept ↦ inl (kept ∙ same)
          | inr all ↦ inr (written-IsPurchase user i u t v.tables eu hu all).0
        ])
        (record_purchase-Ends env user i b t w p)

  get_user_for_update-Ends :
      (w : World)
      → w.pending ≡ some t
      → Ends
          (InTx w (λ u t'. (t' ≡ t) × IsWithId user t.users u))
          (Kept w)
          (get_user_for_update env tx user w)
  unfolding get_user_for_update select_user_by_id
  get_user_for_update-Ends w p =
      query_then-Ends env (select_user_by_id user) exactly_one_user w t
        (λ u t'. (t' ≡ t) × IsWithId user t.users u) p
        (λ rows t' e.
          let same = done_parts _ rows t t' e in
          rw same.0 (
            Yields-mono (IsWithId user t.users) (λ u. (t' ≡ t) × IsWithId user t.users u) _
              (λ u h. (same.1, h)) (IsWithId-Yields user t.users)))

  -- Within the transaction: a return means that exactly this purchase has been committed, a
  -- failure that nothing has, or the whole purchase.
  pub purchase_in_tx-Ends :
      (w : World)
      → IsConsistent t
      → w.tables ≡ t
      → w.pending ≡ some t
      → Ends Buys BuysOrNot (purchase_in_tx env i user w)
  unfolding purchase_in_tx
  purchase_in_tx-Ends w c same p =
      let rest = λ (u : User).
        let b = wrap64 (u.balance -ℤ i.price) in
        let a : Action Purchase =
          if ltb_ℤ b (pos 0) then fail_with not_enough else record_purchase env user i b in
        a in
      Ends-then (InTx w (λ u t'. (t' ≡ t) × IsWithId user t.users u)) Buys (Kept w) BuysOrNot
        (get_user_for_update env tx user) rest w (get_user_for_update-Ends w p)
        (λ _ v kept. inl (kept ∙ same))
        (λ u v (same', (t', p', (e, h))).
          rw h.user (elim (Bool-cases (ltb_ℤ (wrap64 (h.row.balance -ℤ i.price)) (pos 0))) [
            | inl short ↦ rw short (inl (same' ∙ same))
            | inr enough ↦ rw enough (
                writes-Ends h.row v h.found (balance-IsAmount t user h.row c h.found) (same' ∙ same)
                  (rw (← e) p'))
          ]))
