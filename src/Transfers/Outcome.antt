-- ===== src/Transfers/Outcome.antt =====
-- What a transfer does to the tables, by how it ends.
use merch.Base.{◌≡◌, ◌≢◌, refl, sym, ◌∙◌, subst, ◌⊎◌, inl, inr, some, [], ◌∷◌, Bool-cases}
use merch.Base.Int.{ℤ, pos, ◌+ℤ◌, ◌-ℤ◌, ◌≤ℤ◌, ltb_ℤ}
use merch.Go.Errors.{Error}
use merch.Go.Words.{wrap64}
use merch.Postgres.Schema.{Uuid, UserRow, TransferRow, Tables}
use merch.Postgres.Session.{Env, World, tx}
use merch.Postgres.Triples.{Ends, Ends-then, Ends-mono}
use merch.Postgres.Transactions.{InTx, Kept}
use merch.Users.Model.{user_of}
use merch.Ledger.Accounts.{find}
use merch.Ledger.Invariant.{
  IsAmount, IsConsistent, balance-IsAmount, wrap64-sub, wrap64-add, covered_of,
}
use merch.Ledger.Change.{Change, transfer, transferred}
use merch.Transfers.Transferer.{
  UsersMap, new_transfer_row, user_at, deref, get_users_by_ids_for_update, record_transfer,
  move_coins, transfer_in_tx,
}
use merch.Transfers.Found.{FoundBoth, get_users_by_ids_for_update-Ends}
use merch.Transfers.Writes.{IsWritten, record_transfer-Ends}

-- `t'` is `t` after a transfer of `amount` coins from `src` to `dst`.
pub record IsTransfer (dst src : Uuid) (amount : ℤ) (t t' : Tables) : Type 0 where
  pub sender : UserRow
  pub receiver : UserRow
  pub row : TransferRow
  pub row_src : row.src_user_id ≡ src
  pub row_dst : row.dst_user_id ≡ dst
  pub row_amount : row.amount ≡ amount
  pub sender_found : find src t.users ≡ some sender
  pub receiver_found : find dst t.users ≡ some receiver
  pub amount_fits : IsAmount amount
  pub covered : amount ≤ℤ sender.balance
  pub receiver_fits : IsAmount (receiver.balance +ℤ amount)
  pub result : t' ≡ transferred sender receiver row t

pub IsTransfer-Change :
    (dst src : Uuid) (amount : ℤ) (t t' : Tables)
    → src ≢ dst
    → IsTransfer dst src amount t t'
    → Change t t'
IsTransfer-Change dst src amount t t' ne m =
    transfer m.sender m.receiver m.row (λ e. ne (sym m.row_src ∙ e ∙ m.row_dst))
      (rw m.row_src m.sender_found) (rw m.row_dst m.receiver_found) (rw m.row_amount m.amount_fits)
      (rw m.row_amount m.covered) (rw m.row_amount m.receiver_fits) m.result

pub written-IsTransfer :
    (dst src : Uuid) (amount : ℤ) (s d : UserRow) (t t' : Tables)
    → find src t.users ≡ some s
    → find dst t.users ≡ some d
    → IsAmount s.balance
    → IsAmount d.balance
    → IsWritten dst src amount (wrap64 (s.balance -ℤ amount)) (wrap64 (d.balance +ℤ amount)) t t'
    → IsTransfer dst src amount t t'
written-IsTransfer dst src amount s d t t' es ed hs hd w =
    let sub = wrap64-sub s.balance amount hs w.amount_fits in
    let add = wrap64-add d.balance amount hd w.amount_fits in
    record {
      sender = s;
      receiver = d;
      row = new_transfer_row w.values dst src amount;
      row_src = refl;
      row_dst = refl;
      row_amount = refl;
      sender_found = es;
      receiver_found = ed;
      amount_fits = w.amount_fits;
      covered = covered_of s.balance amount (subst IsAmount sub w.src_fits);
      receiver_fits = subst IsAmount add w.dst_fits;
      result = rw (w.result, sub, add);
    }

module _ (env : Env) (dst src : Uuid) (amount : ℤ) (t : Tables) where
  abbrev pub Succeeds : Unit {0} → World → Type 0
  Succeeds _ w = IsTransfer dst src amount t w.tables

  abbrev pub Fails : Error → World → Type 0
  Fails _ w = (w.tables ≡ t) ⊎ IsTransfer dst src amount t w.tables

  module _ (s d : UserRow) (es : find src t.users ≡ some s) (ed : find dst t.users ≡ some d)
      (hs : IsAmount s.balance) (hd : IsAmount d.balance) (w : World) (same : w.tables ≡ t)
      (p : w.pending ≡ some t) where
    writes-Ends : Ends Succeeds Fails (
        record_transfer env dst src amount
          (wrap64 (s.balance -ℤ amount))
          (wrap64 (d.balance +ℤ amount))
          w)
    writes-Ends =
        let sb = wrap64 (s.balance -ℤ amount) in
        let db = wrap64 (d.balance +ℤ amount) in
        Ends-mono (λ _ v. IsWritten dst src amount sb db t v.tables) Succeeds
          (λ _ v. (v.tables ≡ w.tables) ⊎ IsWritten dst src amount sb db t v.tables) Fails
          (record_transfer env dst src amount sb db w)
          (λ _ v h. written-IsTransfer dst src amount s d t v.tables es ed hs hd h)
          (λ _ v h. elim h [
            | inl kept ↦ inl (kept ∙ same)
            | inr all ↦ inr (written-IsTransfer dst src amount s d t v.tables es ed hs hd all)
          ])
          (record_transfer-Ends env dst src amount sb db t w p)

    move_coins-Ends :
        (m : UsersMap)
        → user_at m src ≡ some (user_of s)
        → user_at m dst ≡ some (user_of d)
        → Ends Succeeds Fails (move_coins env dst src amount m w)
    unfolding move_coins deref
    move_coins-Ends m ms md = elim (Bool-cases (ltb_ℤ (wrap64 (s.balance -ℤ amount)) (pos 0))) [
      | inl short ↦ rw (ms, move_coins, short) (inl same)
      | inr enough ↦ rw (ms, move_coins, enough, md) writes-Ends
    ]

  -- Within the transaction: a return means that exactly this transfer has been committed, a
  -- failure that nothing has, or the whole transfer.
  pub transfer_in_tx-Ends :
      (w : World)
      → IsConsistent t
      → w.tables ≡ t
      → w.pending ≡ some t
      → Ends Succeeds Fails (transfer_in_tx env dst src amount w)
  unfolding transfer_in_tx
  transfer_in_tx-Ends w c same p =
      Ends-then (InTx w (FoundBoth src dst t)) Succeeds (Kept w) Fails
        (get_users_by_ids_for_update env tx (src ∷ dst ∷ [])) (move_coins env dst src amount) w
        (get_users_by_ids_for_update-Ends env src dst w t c.keys p) (λ _ v kept. inl (kept ∙ same))
        (λ m v (same', (t', p', (e', (s, d, es, ed, ms, md)))).
          move_coins-Ends s d es ed (balance-IsAmount t src s c es) (balance-IsAmount t dst d c ed)
            v (same' ∙ same) (rw (← e') p') m ms md)
