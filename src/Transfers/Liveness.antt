-- ===== src/Transfers/Liveness.antt =====
-- A transfer that is covered, where every request is delivered.
pub mod Payment
use merch.Base.{
  ℕ, ◌+◌, String, ◌≡◌, ◌≢◌, refl, ap, ◌∙◌, Bool, false, none, some, [], ◌∷◌, arith, ◌==◌, map,
}
use merch.Base.Int.{ℤ, pos, ◌+ℤ◌, ◌-ℤ◌, ◌≤ℤ◌, ltb_ℤ, int_laws}
use merch.Base.Lists.{any, filter}
use merch.Go.Errors.{ok}
use merch.Postgres.Schema.{Uuid, UserRow, Tables, in_integer, ge_0}
use merch.Postgres.Session.{Env, World, Defaults, done, tx, arrived, defaults, ◌>>=◌}
use merch.Postgres.Delivery.{
  Delivers, midway, closed, bind_ok, wrapped_ok, tx_scan, begin_delivered, commit_delivered,
  deferring_rollback-closed,
}
use merch.Postgres.Rows.{collect_exactly_one_row}
use merch.Users.Model.{user_of}
use merch.Users.Balance.{set_balance}
use merch.Users.Selection.{any_found, update_user_balance_done, get_user_by_username_done}
use merch.Ledger.Accounts.{find, find_username, find-set_balance}
use merch.Ledger.Invariant.{
  HasDistinctKeys, IsAmount, IsConsistent, set_balance-HasDistinctKeys, balance-IsAmount,
  wrap64-sub, wrap64-add,
}
use merch.Transfers.Model.{Transfer, row_to_transfer}
use merch.Transfers.Transferer.{
  UsersMap, user_at, check_ids, users_map, users_by_ids, select_users_by_ids,
  get_users_by_ids_for_update, insert_transfer, new_transfer_row, create_transfer, record_transfer,
  move_coins, transfer_in_tx, transfer_to, dst_user_by_username, not_exist_as_dst_not_found,
  transfer_by_username, deref,
}
use merch.Users.Selection.{collect_rows-row_to_user}
use merch.Transfers.Found.{user_at-users_map, pick}
use merch.Transfers.Liveness.Payment.{CanPay, asked, both, both_src, both_dst, record_transfer_done}

module _ (env : Env) (delivers : Delivers env) (dst src : Uuid) (amount : ℤ)
    (differ : src ≢ dst) where
  move_coins_done :
      (t : Tables) (n : ℕ) (p : CanPay dst src amount t)
      → any (λ x. x.id == env.uuid n 0) t.transfers ≡ false
      → (t' : Tables) × (move_coins env dst src amount (both src dst t) (midway t t n)
          ≡ (ok tt, closed t' (n + 1 + 1 + 1 + 1)))
  unfolding move_coins deref
  move_coins_done t n p fresh =
      let hs = balance-IsAmount t src p.sender p.consistent p.sender_found in
      let hd = balance-IsAmount t dst p.receiver p.consistent p.receiver_found in
      let sub = wrap64-sub p.sender.balance amount hs p.amount_fits in
      let add = wrap64-add p.receiver.balance amount hd p.amount_fits in
      let (low, high) = p.amount_fits in
      let covered = p.covered in
      let fs : IsAmount (p.sender.balance -ℤ amount) = (omega int_laws, omega int_laws) in
      let enough : ltb_ℤ (p.sender.balance -ℤ amount) (pos 0) ≡ false = ground (arith, fs) in
      let (t', runs) =
        record_transfer_done env delivers dst src amount differ t n p (p.sender.balance -ℤ amount)
          (p.receiver.balance +ℤ amount) fs p.receiver_fits fresh in
      (
        t',
        rw
            (
              move_coins,
              both_src src dst t p.sender p.consistent.keys p.sender_found,
              sub,
              enough,
              both_dst src dst t p.receiver p.consistent.keys p.receiver_found,
              add,
            )
            runs,
      )

  users_by_ids_done :
      (t : Tables) (p : CanPay dst src amount t)
      → users_by_ids (src ∷ dst ∷ []) (filter (λ u. asked src dst u.id) t.users)
        ≡ ok (both src dst t)
  unfolding users_by_ids check_ids
  users_by_ids_done t p =
      rw
        (
          users_by_ids,
          collect_rows-row_to_user,
          check_ids,
          both_src src dst t p.sender p.consistent.keys p.sender_found,
          both_dst src dst t p.receiver p.consistent.keys p.receiver_found,
        )
        refl

  get_users_by_ids_done :
      (t : Tables) (n : ℕ) (p : CanPay dst src amount t)
      → get_users_by_ids_for_update env tx (src ∷ dst ∷ []) (midway t t n)
        ≡ (ok (both src dst t), midway t t (n + 1))
  unfolding get_users_by_ids_for_update select_users_by_ids
  get_users_by_ids_done t n p =
      tx_scan env delivers (select_users_by_ids (src ∷ dst ∷ [])) (users_by_ids (src ∷ dst ∷ [])) t
        t n _ t _ refl (users_by_ids_done t p)

  transfer_to_done :
      (w : World) (p : CanPay dst src amount (arrived env w))
      → any (λ x. x.id == env.uuid (w.tick + 1 + 1) 0) (arrived env w).transfers ≡ false
      → (t' : Tables) × (transfer_to env dst src amount w
          ≡ (ok tt, closed t' (w.tick + 1 + 1 + 1 + 1 + 1 + 1)))
  unfolding transfer_to transfer_in_tx
  transfer_to_done w p fresh =
      let t = arrived env w in
      let (t', runs) = move_coins_done t (w.tick + 1 + 1) p fresh in
      let within : transfer_in_tx env dst src amount (midway t t (w.tick + 1))
          ≡ (ok tt, closed t' (w.tick + 1 + 1 + 1 + 1 + 1 + 1)) =
        rw (transfer_in_tx, get_users_by_ids_done t (w.tick + 1) p) runs in
      let unequal : (src == dst) ≡ false = ground (arith, differ) in
      (
        t',
        rw (transfer_to, unequal, begin_delivered env delivers w)
            (deferring_rollback-closed (transfer_in_tx env dst src amount) (midway t t (w.tick + 1))
              tt t' (w.tick + 1 + 1 + 1 + 1 + 1 + 1) within),
      )

dst_user_done :
    (env : Env) (delivers : Delivers env) (name : String) (w : World) (d : UserRow)
    → HasDistinctKeys (arrived env w).users
    → find_username name (arrived env w).users ≡ some d
    → dst_user_by_username env name w ≡ (ok (user_of d), closed (arrived env w) (w.tick + 1))
unfolding dst_user_by_username not_exist_as_dst_not_found
dst_user_done env delivers name w d k e =
    rw (dst_user_by_username, get_user_by_username_done env name w d delivers k e) refl

-- what the transaction of a transfer that starts at `w` begins from
abbrev pub at_begin : Env → World → Tables
at_begin env w = env.arrive (w.tick + 1) (arrived env w)

-- Where every request is delivered, TransferByUsername returns without an error: if ids and
-- usernames are distinct when the receiver is looked up, the name is found and is not the sender's;
-- if the tables that the transaction starts from, after what other clients did in between, are
-- consistent, the sender and the receiver are there, the amount fits its column and the sender's
-- balance covers it, and the receiver's new balance fits its column; and if no transfer has the id
-- that the fourth request draws.
pub transfer_by_username_done :
    (env : Env) (name : String) (src : Uuid) (amount : ℤ) (w : World) (d : UserRow)
    → Delivers env
    → HasDistinctKeys (arrived env w).users
    → find_username name (arrived env w).users ≡ some d
    → src ≢ d.id
    → CanPay d.id src amount (at_begin env w)
    → any (λ x. x.id == env.uuid (w.tick + 3) 0) (at_begin env w).transfers ≡ false
    → (transfer_by_username env name src amount w).0 ≡ ok tt
unfolding transfer_by_username
transfer_by_username_done env name src amount w d delivers k e differ p fresh =
    let v = closed (arrived env w) (w.tick + 1) in
    let third : w.tick + 1 + 1 + 1 ≡ w.tick + 3 = omega arith in
    let (t', runs) = transfer_to_done env delivers d.id src amount differ v p (rw third fresh) in
    ap (λ x. x.0)
      (wrapped_ok "transfer.Transferer"
        (dst_user_by_username env name >>= λ u. transfer_to env u.id src amount) tt w
        (closed t' (v.tick + 1 + 1 + 1 + 1 + 1 + 1))
        (bind_ok (dst_user_by_username env name) (λ u. transfer_to env u.id src amount) (user_of d)
          w v (dst_user_done env delivers name w d k e) runs))
