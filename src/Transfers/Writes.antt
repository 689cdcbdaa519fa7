-- ===== src/Transfers/Writes.antt =====
-- The three writes of a transfer and the commit.
use merch.Base.{◌≡◌, ◌⊎◌, inl, inr, some, List, [], ◌∷◌, arith, sym, ◌∙◌, subst}
use merch.Base.Int.{ℤ}
use merch.Go.Errors.{Error}
use merch.Postgres.Schema.{Uuid, TransferRow, Tables, in_integer, ge_0}
use merch.Postgres.Session.{Env, World, Action, Defaults, done, tx, commit, ◌>>◌}
use merch.Postgres.Triples.{Ends, Ends-then, Ends-mono}
use merch.Postgres.Transactions.{
  Yields, InTx, Kept, Published, AllOrNothing, query_then-Ends, commit-Ends,
}
use merch.Postgres.Rows.{collect_exactly_one_row}
use merch.Users.Balance.{set_balance, update_user_balance}
use merch.Users.Balance.Runs.{IsUpdated, update_user_balance-Ends}
use merch.Ledger.Invariant.{IsAmount}
use merch.Transfers.Model.{Transfer, row_to_transfer}
use merch.Transfers.Transferer.{insert_transfer, new_transfer_row, create_transfer, record_transfer}

abbrev pub IsInserted : Uuid → Uuid → ℤ → Tables → Transfer → Tables → Type 0
IsInserted dst src amount t _ t' =
    (d : Defaults) × (t' ≡ record t { transfers = new_transfer_row d dst src amount ∷ t.transfers })
    × IsAmount amount

insert_transfer-Yields :
    (dst src : Uuid) (amount : ℤ) (d : Defaults) (t : Tables) (rows : List TransferRow)
    (t' : Tables)
    → insert_transfer dst src amount d t ≡ done rows t'
    → Yields (λ x. IsInserted dst src amount t x t') (collect_exactly_one_row row_to_transfer rows)
unfolding insert_transfer collect_exactly_one_row row_to_transfer in_integer ge_0
insert_transfer-Yields dst src amount d t [] t' e = tt
insert_transfer-Yields dst src amount d t (x ∷ []) t' e = (d, ground arith, ground arith)
insert_transfer-Yields dst src amount d t (x ∷ y ∷ xs) t' e = tt

create_transfer-Ends :
    (env : Env) (dst src : Uuid) (amount : ℤ) (w : World) (t : Tables)
    → w.pending ≡ some t
    → Ends (InTx w (IsInserted dst src amount t)) (Kept w) (create_transfer env tx dst src amount w)
unfolding create_transfer
create_transfer-Ends env dst src amount w t e =
    query_then-Ends env (insert_transfer dst src amount) (collect_exactly_one_row row_to_transfer) w
      t (IsInserted dst src amount t) e
      (λ rows t' h. insert_transfer-Yields dst src amount _ t rows t' h)

-- The tables after the three writes.
abbrev pub written : Defaults → Uuid → Uuid → ℤ → ℤ → ℤ → Tables → Tables
written d dst src amount src_balance dst_balance t = record t {
  users = set_balance dst dst_balance (set_balance src src_balance t.users);
  transfers = new_transfer_row d dst src amount ∷ t.transfers;
}

pub record IsWritten (dst src : Uuid) (amount src_balance dst_balance : ℤ) (t t' : Tables)
    : Type 0 where
  pub values : Defaults
  pub amount_fits : IsAmount amount
  pub src_fits : IsAmount src_balance
  pub dst_fits : IsAmount dst_balance
  pub result : t' ≡ written values dst src amount src_balance dst_balance t

module _ (env : Env) (dst src : Uuid) (amount src_balance dst_balance : ℤ) (t : Tables) where
  abbrev Target : Tables → Type 0
  Target = IsWritten dst src amount src_balance dst_balance t

  abbrev Succeeds : Unit {0} → World → Type 0
  Succeeds _ w = Target w.tables

  abbrev Fails : World → Error → World → Type 0
  Fails w _ w' = (w'.tables ≡ w.tables) ⊎ Target w'.tables

  -- The commit of written tables.
  commit_step :
      (w v : World) (t3 : Tables)
      → v.tables ≡ w.tables
      → v.pending ≡ some t3
      → Target t3
      → Ends Succeeds (Fails w) (commit env v)
  commit_step w v t3 same p h =
      Ends-mono (Published t3) Succeeds (AllOrNothing v t3) (Fails w) (commit env v)
        (λ _ u e. subst Target (sym e) h)
        (λ _ u e. elim e [
          | inl kept ↦ inl (kept ∙ same)
          | inr all ↦ inr (subst Target (sym all) h)
        ])
        (commit-Ends env v t3 p)

  -- from the second update on
  abbrev last_write : Action Unit
  last_write = do update_user_balance env tx dst dst_balance; commit env

  last_write-Ends :
      (w v : World) (d : Defaults) (t2 : Tables)
      → v.tables ≡ w.tables
      → v.pending ≡ some t2
      → IsAmount amount
      → IsAmount src_balance
      → t2 ≡ record t {
        users = set_balance src src_balance t.users;
        transfers = new_transfer_row d dst src amount ∷ t.transfers;
      }
      → Ends Succeeds (Fails w) (last_write v)
  last_write-Ends w v d t2 same p amount_fits src_fits e =
      Ends-then (InTx v (IsUpdated dst dst_balance t2)) Succeeds (Kept v) (Fails w)
        (update_user_balance env tx dst dst_balance) (λ _. commit env) v
        (update_user_balance-Ends env dst dst_balance v t2 p) (λ _ u kept. inl (kept ∙ same))
        (λ _ u h. commit_step w u h.1.0 (h.0 ∙ same) h.1.1 (record {
          values = d;
          amount_fits = amount_fits;
          src_fits = src_fits;
          dst_fits = h.1.2.1;
          result = rw (h.1.2.0, e);
        }))

  -- from the first update on
  abbrev two_writes : Action Unit
  two_writes = do update_user_balance env tx src src_balance; last_write

  two_writes-Ends :
      (w v : World) (d : Defaults) (t1 : Tables)
      → v.tables ≡ w.tables
      → v.pending ≡ some t1
      → IsAmount amount
      → t1 ≡ record t { transfers = new_transfer_row d dst src amount ∷ t.transfers }
      → Ends Succeeds (Fails w) (two_writes v)
  two_writes-Ends w v d t1 same p amount_fits e =
      Ends-then (InTx v (IsUpdated src src_balance t1)) Succeeds (Kept v) (Fails w)
        (update_user_balance env tx src src_balance) (λ _. last_write) v
        (update_user_balance-Ends env src src_balance v t1 p) (λ _ u kept. inl (kept ∙ same))
        (λ _ u h.
          last_write-Ends w u d h.1.0 (h.0 ∙ same) h.1.1 amount_fits h.1.2.1 (rw (h.1.2.0, e)))

  -- All the writes are published together, or none of them.
  pub record_transfer-Ends :
      (w : World)
      → w.pending ≡ some t
      → Ends Succeeds (Fails w) (record_transfer env dst src amount src_balance dst_balance w)
  unfolding record_transfer
  record_transfer-Ends w e =
      Ends-then (InTx w (IsInserted dst src amount t)) Succeeds (Kept w) (Fails w)
        (create_transfer env tx dst src amount) (λ _. two_writes) w
        (create_transfer-Ends env dst src amount w t e) (λ _ u kept. inl kept)
        (λ _ u h. two_writes-Ends w u h.1.2.0 h.1.0 h.0 h.1.1 h.1.2.2 h.1.2.1)
