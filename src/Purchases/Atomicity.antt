-- ===== src/Purchases/Atomicity.antt =====
-- `PurchaseByName` from end to end, among other clients and lost requests.
use merch.Base.{◌≡◌, refl, sym, subst, ◌⊎◌, inl, inr, some, String}
use merch.Go.Errors.{Error}
use merch.Postgres.Schema.{Uuid, ItemRow, Tables}
use merch.Postgres.Session.{
  Env, World, Action, pool, begin, arrived, deferring_rollback, ◌>>=◌, ◌>>◌,
}
use merch.Postgres.Triples.{Ends, Ends-then, Ends-mono, Ends-wrapped, Ends-tables}
use merch.Postgres.Pool.{
  Others, nobody, somebody, Others-keep, OthersKeep, TablesAre, begin-Ends, deferring_rollback-Ends,
}
use merch.Items.{Item, get_item_by_name}
use merch.Items.Lookup.{IsItemNamed, item_of, find_item, get_item_by_name-Ends}
use merch.Ledger.Invariant.{IsConsistent}
use merch.Ledger.Preservation.{Change-IsConsistent}
use merch.Purchases.Model.{Purchase}
use merch.Purchases.Purchaser.{purchase_in_tx, purchase_by_name}
use merch.Purchases.Writes.{purchase_of}
use merch.Purchases.Outcome.{IsPurchase, IsPurchase-Change, Buys, BuysOrNot, purchase_in_tx-Ends}

-- Between `t` and `t'` stands one purchase by `user` of the item that had the name `item_name` when
-- it was looked up, at its price; all else was done by other clients.
pub record IsBought (env : Env) (item_name : String) (user : Uuid) (t t' : Tables) : Type 0 where
  pub at_lookup : Tables
  pub at_begin : Tables
  pub item : ItemRow
  pub before_lookup : Others env t at_lookup
  pub before_begin : Others env at_lookup at_begin
  pub item_found : find_item item_name at_lookup.items ≡ some item
  pub paid : IsPurchase user (item_of item) at_begin t'

module _ (env : Env) (item_name : String) (user : Uuid) (t : Tables) where
  abbrev pub Succeeds : Purchase → World → Type 0
  Succeeds p v = (b : IsBought env item_name user t v.tables) × (p ≡ purchase_of b.paid.row)

  -- only the other clients have changed the tables, or the whole purchase is in them
  abbrev pub Fails : Error → World → Type 0
  Fails _ v = Others env t v.tables ⊎ IsBought env item_name user t v.tables

  -- The transaction, from `Begin` to the deferred `Rollback`.
  in_transaction :
      (i : Item) (w : World)
      → IsConsistent (arrived env w)
      → Ends
          (Buys env user i (arrived env w))
          (BuysOrNot env user i (arrived env w))
          ((begin env >> deferring_rollback (purchase_in_tx env i user)) w)
  in_transaction i w c =
      let t2 = arrived env w in
      let Q =
        λ (p : Purchase) (u : Tables). (m : IsPurchase user i t2 u) × (p ≡ purchase_of m.row) in
      let E = λ (_ : Error) (u : Tables). (u ≡ t2) ⊎ IsPurchase user i t2 u in
      Ends-then (λ _ v. (v.tables ≡ t2) × (v.pending ≡ some t2)) (λ x v. Q x v.tables)
        (TablesAre t2) (λ e v. E e v.tables) (begin env)
        (λ _. deferring_rollback (purchase_in_tx env i user)) w (begin-Ends env w)
        (λ _ v same. inl same)
        (λ _ v h.
          deferring_rollback-Ends Q E (purchase_in_tx env i user) v
            (purchase_in_tx-Ends env user i t2 v c h.0 h.1))

  buy-Ends :
      (keep : OthersKeep IsConsistent env) (r : ItemRow) (w : World)
      → IsConsistent w.tables
      → Others env t w.tables
      → find_item item_name w.tables.items ≡ some r
      → Ends Succeeds Fails
          ((begin env >> deferring_rollback (purchase_in_tx env (item_of r) user)) w)
  buy-Ends keep r w c o found =
      let t2 = arrived env w in
      let i = item_of r in
      let bought = λ (u : Tables) (m : IsPurchase user i t2 u).
        let s : IsBought env item_name user t u = record {
          at_lookup = w.tables;
          at_begin = t2;
          item = r;
          before_lookup = o;
          before_begin = somebody w.tick nobody;
          item_found = found;
          paid = m;
        } in
        s in
      Ends-mono (Buys env user i t2) Succeeds (BuysOrNot env user i t2) Fails
        ((begin env >> deferring_rollback (purchase_in_tx env i user)) w)
        (λ p v (m, e). (bought v.tables m, e))
        (λ _ v h. elim h [
          | inl same ↦ inl (subst (Others env t) (sym same) (somebody w.tick o))
          | inr m ↦ inr (bought v.tables m)
        ])
        (in_transaction i w (keep w.tick w.tables c))

  -- From consistent tables `t`, which other clients keep consistent, PurchaseByName does not panic.
  -- If it returns, one purchase by `user` has been committed, of the item that had the name
  -- `item_name` when it was looked up and at that item's price, which the balance covered; it is
  -- the purchase that is returned, and all other changes are those of other clients before the
  -- transaction. If it fails, only other clients have changed the tables, or that whole purchase is
  -- in them too.
  pub purchase_by_name-Ends :
      (keep : OthersKeep IsConsistent env) (w : World)
      → IsConsistent t
      → w.tables ≡ t
      → Ends Succeeds Fails (purchase_by_name env item_name user w)
  unfolding purchase_by_name
  purchase_by_name-Ends keep w c same =
      let o : Others env t (arrived env w) =
        subst (λ u. Others env t (env.arrive w.tick u)) (sym same) (somebody w.tick nobody) in
      let buy = λ (i : Item). begin env >> deferring_rollback (purchase_in_tx env i user) in
      let body : Action Purchase = get_item_by_name env pool item_name >>= buy in
      Ends-wrapped "purhcase.Purchaser" Succeeds Fails body w (
        Ends-then
          (λ i v. (v.tables ≡ arrived env w) × IsItemNamed item_name (arrived env w).items i)
          Succeeds (TablesAre (arrived env w)) Fails (get_item_by_name env pool item_name) buy w
          (get_item_by_name-Ends env item_name w) (λ _ v e. inl (subst (Others env t) (sym e) o))
          (λ i v (e, h).
            let o' = subst (Others env t) (sym e) o in
            rw h.item (
              buy-Ends keep h.row v (Others-keep IsConsistent keep o' c) o'
                (subst (λ u. find_item item_name u.items ≡ some h.row) (sym e) h.found))))

IsBought-IsConsistent :
    (env : Env) (name : String) (user : Uuid) (t t' : Tables)
    → OthersKeep IsConsistent env
    → IsConsistent t
    → IsBought env name user t t'
    → IsConsistent t'
IsBought-IsConsistent env name user t t' keep c s =
    Change-IsConsistent (IsPurchase-Change user (item_of s.item) s.at_begin t' s.paid) (
      Others-keep IsConsistent keep s.before_begin
        (Others-keep IsConsistent keep s.before_lookup c))

-- PurchaseByName keeps consistent tables consistent, however it ends, if other clients keep them
-- so.
pub purchase_by_name-IsConsistent :
    (env : Env) (name : String) (user : Uuid) (w : World)
    → OthersKeep IsConsistent env
    → IsConsistent w.tables
    → IsConsistent (purchase_by_name env name user w).1.tables
purchase_by_name-IsConsistent env name user w keep c =
    let bought = IsBought-IsConsistent env name user w.tables in
    Ends-tables IsConsistent (Succeeds env name user w.tables) (Fails env name user w.tables)
      (purchase_by_name env name user w) (λ _ v s. bought v.tables keep c s.0)
      (λ _ v h. elim h [
        | inl o ↦ Others-keep IsConsistent keep o c
        | inr s ↦ bought v.tables keep c s
      ])
      (purchase_by_name-Ends env name user w.tables keep w c refl)
