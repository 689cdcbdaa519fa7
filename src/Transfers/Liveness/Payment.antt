-- ===== src/Transfers/Liveness/Payment.antt =====
-- The writes of a transfer that is covered.
use merch.Base.{ℕ, ◌+◌, ◌≡◌, ◌≢◌, refl, ap, ◌∙◌, Bool, false, none, some, [], ◌∷◌, arith, ◌==◌, map}
use merch.Base.Int.{ℤ, ◌+ℤ◌, ◌≤ℤ◌}
use merch.Base.Lists.{any, filter}
use merch.Go.Errors.{ok}
use merch.Postgres.Schema.{Uuid, UserRow, Tables, in_integer, ge_0}
use merch.Postgres.Session.{Env, Defaults, done, tx, defaults}
use merch.Postgres.Delivery.{Delivers, midway, closed, tx_scan, commit_delivered}
use merch.Postgres.Rows.{collect_exactly_one_row}
use merch.Users.Model.{user_of}
use merch.Users.Balance.{set_balance}
use merch.Users.Selection.{any_found, update_user_balance_done}
use merch.Ledger.Accounts.{find, find-set_balance}
use merch.Ledger.Invariant.{HasDistinctKeys, IsAmount, IsConsistent, set_balance-HasDistinctKeys}
use merch.Transfers.Model.{Transfer, row_to_transfer}
use merch.Transfers.Transferer.{
  UsersMap, user_at, users_map, insert_transfer, new_transfer_row, create_transfer, record_transfer,
}
use merch.Transfers.Found.{user_at-users_map, pick}

-- The tables `t` let `amount` coins go from `src` to `dst`: both are there, the sender can pay, and
-- the receiver's balance still fits its column.
pub record CanPay (dst src : Uuid) (amount : ℤ) (t : Tables) : Type 0 where
  pub consistent : IsConsistent t
  pub sender : UserRow
  pub receiver : UserRow
  pub sender_found : find src t.users ≡ some sender
  pub receiver_found : find dst t.users ≡ some receiver
  pub amount_fits : IsAmount amount
  pub covered : amount ≤ℤ sender.balance
  pub receiver_fits : IsAmount (receiver.balance +ℤ amount)

insert_transfer_done :
    (dst src : Uuid) (amount : ℤ) (v : Defaults) (t : Tables) (s d : UserRow)
    → find src t.users ≡ some s
    → find dst t.users ≡ some d
    → IsAmount amount
    → any (λ x. x.id == v.ids 0) t.transfers ≡ false
    → insert_transfer dst src amount v t
      ≡ done
          (new_transfer_row v dst src amount ∷ [])
          (record t { transfers = new_transfer_row v dst src amount ∷ t.transfers })
unfolding insert_transfer in_integer ge_0
insert_transfer_done dst src amount v t s d es ed fits fresh =
    rw (fresh, any_found src t.users s es, any_found dst t.users d ed) (ground arith)

-- The map of both users.
abbrev pub asked : Uuid → Uuid → Uuid → Bool
asked src dst i = any (λ id. i == id) (src ∷ dst ∷ [])

abbrev pub both : Uuid → Uuid → Tables → UsersMap
both src dst t = users_map [] (map user_of (filter (λ u. asked src dst u.id) t.users))

pub both_src :
    (src dst : Uuid) (t : Tables) (s : UserRow)
    → HasDistinctKeys t.users
    → find src t.users ≡ some s
    → user_at (both src dst t) src ≡ some (user_of s)
unfolding user_at
both_src src dst t s k e =
    user_at-users_map (asked src dst) src t.users [] (ground arith) k ∙ ap (λ o. pick o none) e

pub both_dst :
    (src dst : Uuid) (t : Tables) (d : UserRow)
    → HasDistinctKeys t.users
    → find dst t.users ≡ some d
    → user_at (both src dst t) dst ≡ some (user_of d)
unfolding user_at
both_dst src dst t d k e =
    user_at-users_map (asked src dst) dst t.users [] (ground arith) k ∙ ap (λ o. pick o none) e

module _ (env : Env) (delivers : Delivers env) (dst src : Uuid) (amount : ℤ)
    (differ : src ≢ dst) where
  create_transfer_done :
      (t : Tables) (n : ℕ) (p : CanPay dst src amount t)
      → any (λ x. x.id == env.uuid n 0) t.transfers ≡ false
      → (x : Transfer) × (create_transfer env tx dst src amount (midway t t n) ≡ (
        ok x,
        midway t
            (record t {
              transfers = new_transfer_row (defaults env n) dst src amount ∷ t.transfers;
            })
            (n + 1),
      ))
  unfolding create_transfer collect_exactly_one_row row_to_transfer defaults
  create_transfer_done t n p fresh = (
    _,
    tx_scan env delivers (insert_transfer dst src amount) (collect_exactly_one_row row_to_transfer)
        t t n _ _ _
        (insert_transfer_done dst src amount (defaults env n) t p.sender p.receiver p.sender_found
          p.receiver_found p.amount_fits fresh)
        refl,
  )

  -- The three writes and the commit.
  pub record_transfer_done :
      (t : Tables) (n : ℕ) (p : CanPay dst src amount t) (sb db : ℤ)
      → IsAmount sb
      → IsAmount db
      → any (λ x. x.id == env.uuid n 0) t.transfers ≡ false
      → (t' : Tables) × (record_transfer env dst src amount sb db (midway t t n)
          ≡ (ok tt, closed t' (n + 1 + 1 + 1 + 1)))
  unfolding record_transfer
  record_transfer_done t n p sb db fs fd fresh =
      let t1 : Tables = record t {
        transfers = new_transfer_row (defaults env n) dst src amount ∷ t.transfers;
      } in
      let t2 : Tables = record t1 { users = set_balance src sb t.users } in
      let t3 : Tables = record t1 { users = set_balance dst db t2.users } in
      let keys = set_balance-HasDistinctKeys src sb t.users p.consistent.keys in
      let kept : find dst t2.users ≡ some p.receiver =
        ground (arith, find-set_balance dst src sb t.users, differ, p.receiver_found) in
      let (x, inserted) = create_transfer_done t n p fresh in
      (
        t3,
        rw
            (
              record_transfer,
              inserted,
              update_user_balance_done env src sb t t1 (n + 1) p.sender delivers p.consistent.keys
                  p.sender_found fs,
              update_user_balance_done env dst db t t2 (n + 1 + 1) p.receiver delivers keys kept fd,
              commit_delivered env delivers t t3 (n + 1 + 1 + 1),
            )
            refl,
      )
