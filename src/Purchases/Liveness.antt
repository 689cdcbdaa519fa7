-- ===== src/Purchases/Liveness.antt =====
-- A purchase that is covered, where every request is delivered.
use merch.Base.{ℕ, ◌+◌, String, ◌≡◌, refl, ap, true, false, some, [], ◌∷◌, arith, ◌==◌, str_eq}
use merch.Base.Int.{ℤ, pos, ◌-ℤ◌, ◌≤ℤ◌, ltb_ℤ, int_laws}
use merch.Base.Lists.{any, filter}
use merch.Go.Errors.{ok}
use merch.Postgres.Schema.{Uuid, UserRow, ItemRow, Tables, in_integer, ge_0}
use merch.Postgres.Session.{
  Env, World, Defaults, done, pool, tx, arrived, defaults, deferring_rollback, begin, ◌>>=◌, ◌>>◌,
}
use merch.Postgres.Delivery.{
  Delivers, midway, closed, bind_ok, wrapped_ok, pool_scan, tx_scan, begin_delivered,
  commit_delivered, deferring_rollback-closed,
}
use merch.Postgres.Rows.{collect_exactly_one_row}
use merch.Users.Model.{user_of}
use merch.Users.Getter.{select_user_by_id, exactly_one_user}
use merch.Users.Balance.{set_balance}
use merch.Users.Selection.{filter_one, exactly_one, any_found, update_user_balance_done}
use merch.Items.{Item, get_item_by_name, find_item_by_name, select_item_by_name, exactly_one_item}
use merch.Items.Lookup.{item_of}
use merch.Ledger.Accounts.{find}
use merch.Ledger.Invariant.{IsAmount, IsConsistent, balance-IsAmount, wrap64-sub}
use merch.Purchases.Model.{Purchase, row_to_purchase}
use merch.Purchases.Writes.{purchase_of}
use merch.Purchases.Purchaser.{
  insert_purchase, new_purchase_row, create_purchase, get_user_for_update, record_purchase,
  purchase_in_tx, purchase_by_name,
}

-- The tables `t` let a user buy the item `i`: both are there, and the user can pay.
pub record CanBuy (user : Uuid) (i : Item) (t : Tables) : Type 0 where
  pub consistent : IsConsistent t
  pub buyer : UserRow
  pub buyer_found : find user t.users ≡ some buyer
  pub on_sale : any (λ (x : ItemRow). x.id == i.id) t.items ≡ true
  pub price_fits : IsAmount i.price
  pub covered : i.price ≤ℤ buyer.balance

insert_purchase_done :
    (user : Uuid) (i : Item) (v : Defaults) (t : Tables)
    → (p : CanBuy user i t) → any (λ x. x.id == v.ids 0) t.purchases ≡ false
    → insert_purchase user i.id i.price v t
      ≡ done
          (new_purchase_row v user i.id i.price ∷ [])
          (record t { purchases = new_purchase_row v user i.id i.price ∷ t.purchases })
unfolding insert_purchase in_integer ge_0
insert_purchase_done user i v t p fresh =
    let (low, high) = p.price_fits in
    rw (fresh, any_found user t.users p.buyer p.buyer_found, p.on_sale) (ground arith)

module _ (env : Env) (delivers : Delivers env) (user : Uuid) (i : Item) where
  create_purchase_done :
      (t : Tables) (n : ℕ)
      → CanBuy user i t
      → any (λ x. x.id == env.uuid n 0) t.purchases ≡ false
      → create_purchase env tx user i.id i.price (midway t t n) ≡ (
        ok (purchase_of (new_purchase_row (defaults env n) user i.id i.price)),
        midway t
            (record t {
              purchases = new_purchase_row (defaults env n) user i.id i.price ∷ t.purchases;
            })
            (n + 1),
      )
  unfolding create_purchase collect_exactly_one_row row_to_purchase defaults
  create_purchase_done t n p fresh =
      tx_scan env delivers (insert_purchase user i.id i.price)
        (collect_exactly_one_row row_to_purchase) t t n _ _ _
        (insert_purchase_done user i (defaults env n) t p fresh) refl

  record_purchase_done :
      (t : Tables) (n : ℕ) (b : ℤ)
      → CanBuy user i t
      → IsAmount b
      → any (λ x. x.id == env.uuid n 0) t.purchases ≡ false
      → (t' : Tables) × (record_purchase env user i b (midway t t n) ≡ (
        ok (purchase_of (new_purchase_row (defaults env n) user i.id i.price)),
        closed t' (n + 1 + 1 + 1),
      ))
  unfolding record_purchase
  record_purchase_done t n b p fits fresh =
      let t1 : Tables = record t {
        purchases = new_purchase_row (defaults env n) user i.id i.price ∷ t.purchases;
      } in
      let t2 : Tables = record t1 { users = set_balance user b t.users } in
      (
        t2,
        rw
            (
              record_purchase,
              create_purchase_done t n p fresh,
              update_user_balance_done env user b t t1 (n + 1) p.buyer delivers p.consistent.keys
                  p.buyer_found fits,
              commit_delivered env delivers t t2 (n + 1 + 1),
            )
            refl,
      )

  get_user_for_update_done :
      (t : Tables) (n : ℕ) (p : CanBuy user i t)
      → get_user_for_update env tx user (midway t t n) ≡ (ok (user_of p.buyer), midway t t (n + 1))
  unfolding get_user_for_update select_user_by_id
  get_user_for_update_done t n p =
      tx_scan env delivers (select_user_by_id user) exactly_one_user t t n _ t _
        (ap (λ rows. done rows t) (filter_one user t.users p.buyer p.consistent.keys p.buyer_found))
        (exactly_one p.buyer)

  purchase_in_tx_done :
      (t : Tables) (n : ℕ)
      → CanBuy user i t
      → any (λ x. x.id == env.uuid (n + 1) 0) t.purchases ≡ false
      → (t' : Tables) × (purchase_in_tx env i user (midway t t n) ≡ (
        ok (purchase_of (new_purchase_row (defaults env (n + 1)) user i.id i.price)),
        closed t' (n + 1 + 1 + 1 + 1),
      ))
  unfolding purchase_in_tx
  purchase_in_tx_done t n p fresh =
      let hu = balance-IsAmount t user p.buyer p.consistent p.buyer_found in
      let sub = wrap64-sub p.buyer.balance i.price hu p.price_fits in
      let (low, high) = p.price_fits in
      let covered = p.covered in
      let fits : IsAmount (p.buyer.balance -ℤ i.price) = (omega int_laws, omega int_laws) in
      let enough : ltb_ℤ (p.buyer.balance -ℤ i.price) (pos 0) ≡ false = ground (arith, fits) in
      let (t', runs) = record_purchase_done t (n + 1) (p.buyer.balance -ℤ i.price) p fits fresh in
      (t', rw (purchase_in_tx, get_user_for_update_done t n p, sub, enough) runs)

pub get_item_by_name_done :
    (env : Env) (name : String) (w : World) (r : ItemRow)
    → Delivers env
    → filter (λ x. str_eq x.name name) (arrived env w).items ≡ r ∷ []
    → get_item_by_name env pool name w ≡ (ok (item_of r), closed (arrived env w) (w.tick + 1))
unfolding get_item_by_name find_item_by_name select_item_by_name exactly_one_item
get_item_by_name_done env name w r delivers e =
    wrapped_ok "item.Getter" (find_item_by_name env pool name) (item_of r) w _ (
      pool_scan env delivers (select_item_by_name name) exactly_one_item w (r ∷ []) (arrived env w)
        (item_of r) (ap (λ rows. done rows (arrived env w)) e) refl)

-- the purchase that is made at the request `n`
abbrev pub purchase_at : Env → ℕ → Uuid → Item → Purchase
purchase_at env n user i = purchase_of (new_purchase_row (defaults env n) user i.id i.price)

-- what the transaction of a purchase that starts at `w` begins from
abbrev pub at_begin : Env → World → Tables
at_begin env w = env.arrive (w.tick + 1) (arrived env w)

-- Where every request is delivered, PurchaseByName returns the purchase that its fourth request
-- inserts, with the item's price: if one item has the name when it is looked up; if the tables that
-- the transaction starts from, after what other clients did in between, are consistent, and the
-- user and the item are there, the price fits its column and the user's balance covers it; and if
-- no purchase has the new id.
pub purchase_by_name_done :
    (env : Env) (name : String) (user : Uuid) (w : World) (r : ItemRow)
    → Delivers env
    → filter (λ x. str_eq x.name name) (arrived env w).items ≡ r ∷ []
    → CanBuy user (item_of r) (at_begin env w)
    → any (λ x. x.id == env.uuid (w.tick + 3) 0) (at_begin env w).purchases ≡ false
    → (purchase_by_name env name user w).0 ≡ ok (purchase_at env (w.tick + 3) user (item_of r))
unfolding purchase_by_name
purchase_by_name_done env name user w r delivers e p fresh =
    let t = at_begin env w in
    let i = item_of r in
    let third : w.tick + 1 + 1 + 1 ≡ w.tick + 3 = omega arith in
    let (t', within) =
      purchase_in_tx_done env delivers user i t (w.tick + 1 + 1) p (rw third fresh) in
    let buy = λ (i : Item). begin env >> deferring_rollback (purchase_in_tx env i user) in
    let v = closed (arrived env w) (w.tick + 1) in
    let bought =
      deferring_rollback-closed (purchase_in_tx env i user) (midway t t (v.tick + 1)) _ t' _
        within in
    let begun =
      bind_ok (begin env) (λ _. deferring_rollback (purchase_in_tx env i user)) tt v
        (midway t t (v.tick + 1)) (begin_delivered env delivers v) bought in
    let all =
      bind_ok (get_item_by_name env pool name) buy i w v
        (get_item_by_name_done env name w r delivers e) begun in
    rw (← third) (
      ap (λ x. x.0)
        (wrapped_ok "purhcase.Purchaser" (get_item_by_name env pool name >>= buy)
          (purchase_at env (w.tick + 1 + 1 + 1) user i) w (closed t' (v.tick + 1 + 1 + 1 + 1 + 1))
          all))
