-- ===== src/Purchases/Writes.antt =====
-- The two writes of a purchase and the commit.
use merch.Base.{◌≡◌, sym, ◌∙◌, subst, ◌⊎◌, inl, inr, some, List, [], ◌∷◌, arith}
use merch.Base.Int.{ℤ}
use merch.Go.Errors.{Error}
use merch.Postgres.Schema.{Uuid, PurchaseRow, Tables, in_integer, ge_0}
use merch.Postgres.Session.{Env, World, Action, Defaults, done, tx, commit, pure, ◌>>◌}
use merch.Postgres.Triples.{Ends, Ends-then}
use merch.Postgres.Transactions.{
  Yields, InTx, Kept, Published, AllOrNothing, query_then-Ends, commit-Ends,
}
use merch.Postgres.Rows.{collect_exactly_one_row}
use merch.Users.Balance.{set_balance, update_user_balance}
use merch.Users.Balance.Runs.{IsUpdated, update_user_balance-Ends}
use merch.Items.{Item}
use merch.Ledger.Invariant.{IsAmount}
use merch.Purchases.Model.{Purchase, row_to_purchase}
use merch.Purchases.Purchaser.{insert_purchase, new_purchase_row, create_purchase, record_purchase}

abbrev pub purchase_of : PurchaseRow → Purchase
purchase_of r = record {
  id = r.id;
  created_at = r.created_at;
  user_id = r.user_id;
  item_id = r.item_id;
  amount = r.amount;
}

abbrev pub IsInserted : Uuid → Uuid → ℤ → Tables → Purchase → Tables → Type 0
IsInserted user item amount t p t' =
    (d : Defaults) × (t'
      ≡ record t { purchases = new_purchase_row d user item amount ∷ t.purchases })
    × IsAmount amount
    × (p ≡ purchase_of (new_purchase_row d user item amount))

insert_purchase-Yields :
    (user item : Uuid) (amount : ℤ) (d : Defaults) (t : Tables) (rows : List PurchaseRow)
    (t' : Tables)
    → insert_purchase user item amount d t ≡ done rows t'
    → Yields
        (λ x. IsInserted user item amount t x t')
        (collect_exactly_one_row row_to_purchase rows)
unfolding insert_purchase collect_exactly_one_row row_to_purchase in_integer ge_0
insert_purchase-Yields user item amount d t [] t' e = tt
insert_purchase-Yields user item amount d t (x ∷ []) t' e =
    (d, ground arith, ground arith, ground arith)
insert_purchase-Yields user item amount d t (x ∷ y ∷ xs) t' e = tt

create_purchase-Ends :
    (env : Env) (user item : Uuid) (amount : ℤ) (w : World) (t : Tables)
    → w.pending ≡ some t
    → Ends
        (InTx w (IsInserted user item amount t))
        (Kept w)
        (create_purchase env tx user item amount w)
unfolding create_purchase
create_purchase-Ends env user item amount w t e =
    query_then-Ends env (insert_purchase user item amount) (collect_exactly_one_row row_to_purchase)
      w t (IsInserted user item amount t) e
      (λ rows t' h. insert_purchase-Yields user item amount _ t rows t' h)

-- The tables after the two writes.
abbrev pub written : Defaults → Uuid → Item → ℤ → Tables → Tables
written d user i balance t = record t {
  users = set_balance user balance t.users;
  purchases = new_purchase_row d user i.id i.price ∷ t.purchases;
}

pub record IsWritten (user : Uuid) (i : Item) (balance : ℤ) (t t' : Tables) : Type 0 where
  pub values : Defaults
  pub price_fits : IsAmount i.price
  pub balance_fits : IsAmount balance
  pub result : t' ≡ written values user i balance t

module _ (env : Env) (user : Uuid) (i : Item) (balance : ℤ) (t : Tables) where
  abbrev Target : Tables → Type 0
  Target = IsWritten user i balance t

  abbrev Succeeds : Purchase → World → Type 0
  Succeeds p w =
      (h : Target w.tables) × (p ≡ purchase_of (new_purchase_row h.values user i.id i.price))

  abbrev Fails : World → Error → World → Type 0
  Fails w _ w' = (w'.tables ≡ w.tables) ⊎ Target w'.tables

  module _ (p : Purchase) where
    abbrev last_steps : Action Purchase
    last_steps = do commit env; pure p

    last_steps-Ends :
        (w v : World) (t2 : Tables)
        → v.tables ≡ w.tables
        → v.pending ≡ some t2
        → (h : Target t2) → p ≡ purchase_of (new_purchase_row h.values user i.id i.price)
        → Ends Succeeds (Fails w) (last_steps v)
    last_steps-Ends w v t2 same pend h e =
        Ends-then (Published t2) Succeeds (AllOrNothing v t2) (Fails w) (commit env) (λ _. pure p) v
          (commit-Ends env v t2 pend)
          (λ _ u x. elim x [
            | inl kept ↦ inl (kept ∙ same)
            | inr all ↦ inr (subst Target (sym all) h)
          ])
          (λ _ u x. (
            record {
              values = h.values;
              price_fits = h.price_fits;
              balance_fits = h.balance_fits;
              result = x ∙ h.result;
            },
            e,
          ))

    abbrev two_steps : Action Purchase
    two_steps = do update_user_balance env tx user balance; last_steps

    two_steps-Ends :
        (w v : World) (d : Defaults) (t1 : Tables)
        → v.tables ≡ w.tables
        → v.pending ≡ some t1
        → IsAmount i.price
        → t1 ≡ record t { purchases = new_purchase_row d user i.id i.price ∷ t.purchases }
        → p ≡ purchase_of (new_purchase_row d user i.id i.price)
        → Ends Succeeds (Fails w) (two_steps v)
    two_steps-Ends w v d t1 same pend price_fits e ep =
        Ends-then (InTx v (IsUpdated user balance t1)) Succeeds (Kept v) (Fails w)
          (update_user_balance env tx user balance) (λ _. last_steps) v
          (update_user_balance-Ends env user balance v t1 pend) (λ _ u kept. inl (kept ∙ same))
          (λ _ u h.
            last_steps-Ends w u h.1.0 (h.0 ∙ same) h.1.1
              (record {
                values = d;
                price_fits = price_fits;
                balance_fits = h.1.2.1;
                result = rw (h.1.2.0, e);
              })
              ep)

  -- Both writes are published together, or none of them.
  pub record_purchase-Ends :
      (w : World)
      → w.pending ≡ some t
      → Ends Succeeds (Fails w) (record_purchase env user i balance w)
  unfolding record_purchase
  record_purchase-Ends w e =
      Ends-then (InTx w (IsInserted user i.id i.price t)) Succeeds (Kept w) (Fails w)
        (create_purchase env tx user i.id i.price) two_steps w
        (create_purchase-Ends env user i.id i.price w t e) (λ _ u kept. inl kept)
        (λ p u h. two_steps-Ends p w u h.1.2.0 h.1.0 h.0 h.1.1 h.1.2.2 h.1.2.1 h.1.2.3)
