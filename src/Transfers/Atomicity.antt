-- ===== src/Transfers/Atomicity.antt =====
-- `TransferByUsername` from end to end, among other clients and lost requests.
use merch.Base.{String, ◌≡◌, ◌≢◌, refl, sym, subst, ◌⊎◌, inl, inr, some, ◌==◌, Bool-cases, arith}
use merch.Base.Int.{ℤ}
use merch.Go.Errors.{Error, Result, ok, err, panic, errors_is, user_not_exist}
use merch.Postgres.Schema.{Uuid, UserRow, Tables}
use merch.Postgres.Session.{
  Env, World, Action, pool, begin, arrived, deferring_rollback, ◌>>=◌, ◌>>◌,
}
use merch.Postgres.Triples.{Ends, Ends-then, Ends-mono, Ends-wrapped, Ends-tables}
use merch.Postgres.Pool.{
  Others, nobody, somebody, Others-keep, OthersKeep, TablesAre, begin-Ends, deferring_rollback-Ends,
}
use merch.Users.Model.{User}
use merch.Users.Lookup.{IsNamed, get_user_by_username-Ends}
use merch.Users.Getter.{get_user_by_username}
use merch.Ledger.Accounts.{find_username}
use merch.Ledger.Invariant.{IsConsistent}
use merch.Ledger.Preservation.{Change-IsConsistent}
use merch.Transfers.Transferer.{
  not_exist_as_dst_not_found, dst_user_by_username, transfer_to, transfer_in_tx,
  transfer_by_username,
}
use merch.Transfers.Outcome.{IsTransfer, IsTransfer-Change, transfer_in_tx-Ends}

-- Between `t` and `t'` stands one transfer of `amount` coins, from `src` to the user that had the
-- name `dst_username` when it was looked up; all else was done by other clients.
pub record IsSent (env : Env) (dst_username : String) (src : Uuid) (amount : ℤ) (t t' : Tables)
    : Type 0 where
  pub at_lookup : Tables
  pub at_begin : Tables
  pub dst : UserRow
  pub before_lookup : Others env t at_lookup
  pub before_begin : Others env at_lookup at_begin
  pub dst_found : find_username dst_username at_lookup.users ≡ some dst
  pub users_differ : src ≢ dst.id
  pub moved : IsTransfer dst.id src amount at_begin t'

module _ (env : Env) (dst_username : String) (src : Uuid) (amount : ℤ) (t : Tables) where
  abbrev pub Succeeds : Unit {0} → World → Type 0
  Succeeds _ v = IsSent env dst_username src amount t v.tables

  -- only the other clients have changed the tables, or the whole transfer is in them
  abbrev pub Fails : Error → World → Type 0
  Fails _ v = Others env t v.tables ⊎ IsSent env dst_username src amount t v.tables

  -- The transaction, from `Begin` to the deferred `Rollback`.
  in_transaction :
      (dst : Uuid) (w : World)
      → IsConsistent (arrived env w)
      → Ends
          (λ _ v. IsTransfer dst src amount (arrived env w) v.tables)
          (λ _ v. (v.tables ≡ arrived env w) ⊎ IsTransfer dst src amount (arrived env w) v.tables)
          ((begin env >> deferring_rollback (transfer_in_tx env dst src amount)) w)
  in_transaction dst w c =
      let t2 = arrived env w in
      let Q = λ (_ : Unit {0}) (u : Tables). IsTransfer dst src amount t2 u in
      let E = λ (_ : Error) (u : Tables). (u ≡ t2) ⊎ IsTransfer dst src amount t2 u in
      Ends-then (λ _ v. (v.tables ≡ t2) × (v.pending ≡ some t2)) (λ x v. Q x v.tables)
        (TablesAre t2) (λ e v. E e v.tables) (begin env)
        (λ _. deferring_rollback (transfer_in_tx env dst src amount)) w (begin-Ends env w)
        (λ _ v same. inl same)
        (λ _ v h.
          deferring_rollback-Ends Q E (transfer_in_tx env dst src amount) v
            (transfer_in_tx-Ends env dst src amount t2 v c h.0 h.1))

  transfer_to-Ends :
      (keep : OthersKeep IsConsistent env) (r : UserRow) (w : World)
      → IsConsistent w.tables
      → Others env t w.tables
      → find_username dst_username w.tables.users ≡ some r
      → Ends Succeeds Fails (transfer_to env r.id src amount w)
  unfolding transfer_to
  transfer_to-Ends keep r w c o found = elim (Bool-cases (src == r.id)) [
    | inl equal ↦ rw (equal, transfer_to) (inl o)
    | inr differ ↦
        let t2 = arrived env w in
        let moved = λ (u : Tables) (m : IsTransfer r.id src amount t2 u).
          let s : IsSent env dst_username src amount t u = record {
            at_lookup = w.tables;
            at_begin = t2;
            dst = r;
            before_lookup = o;
            before_begin = somebody w.tick nobody;
            dst_found = found;
            users_differ = ground arith;
            moved = m;
          } in
          s in
        rw (differ, transfer_to)
          (Ends-mono (λ _ v. IsTransfer r.id src amount t2 v.tables) Succeeds
            (λ _ v. (v.tables ≡ t2) ⊎ IsTransfer r.id src amount t2 v.tables) Fails
            ((begin env >> deferring_rollback (transfer_in_tx env r.id src amount)) w)
            (λ _ v m. moved v.tables m)
            (λ _ v h. elim h [
              | inl same ↦ inl (subst (Others env t) (sym same) (somebody w.tick o))
              | inr m ↦ inr (moved v.tables m)
            ])
            (in_transaction r.id w (keep w.tick w.tables c)))
  ]

  lookup-Ends :
      (w : World)
      → w.tables ≡ t
      → Ends
          (λ u v. Others env t v.tables × IsNamed dst_username v.tables.users u)
          (λ _ v. Others env t v.tables)
          (dst_user_by_username env dst_username w)
  unfolding dst_user_by_username not_exist_as_dst_not_found
  lookup-Ends w same =
      go (get_user_by_username env pool dst_username w)
        (get_user_by_username-Ends env dst_username w)
    where
      o : Others env t (arrived env w)
      o = subst (λ u. Others env t (env.arrive w.tick u)) (sym same) (somebody w.tick nobody)

      go :
          (r : Result User × World)
          → Ends
              (λ u v. (v.tables ≡ arrived env w) × IsNamed dst_username (arrived env w).users u)
              (TablesAre (arrived env w))
              r
          → Ends
              (λ u v. Others env t v.tables × IsNamed dst_username v.tables.users u)
              (λ _ v. Others env t v.tables)
              (not_exist_as_dst_not_found r.0, r.1)
      go (ok u, v) h = (subst (Others env t) (sym h.0) o, rw h.0 h.1)
      go (err e, v) h = elim (Bool-cases (errors_is e user_not_exist)) [
        | inl yes_it_is ↦
            rw (yes_it_is, not_exist_as_dst_not_found) (subst (Others env t) (sym h) o)
        | inr it_is_not ↦
            rw (it_is_not, not_exist_as_dst_not_found) (subst (Others env t) (sym h) o)
      ]
      go (panic, v) h = h

  -- From consistent tables `t`, which other clients keep consistent, TransferByUsername does not
  -- panic. If it returns, one transfer of `amount` coins has been committed from `src` to another
  -- user, who had the name `dst_username` when it was looked up; the amount and the receiver's new
  -- balance fit their columns, the sender's balance covered the amount, and all other changes are
  -- those of other clients before the transaction. If it fails, only other clients have changed the
  -- tables, or that whole transfer is in them too.
  pub transfer_by_username-Ends :
      (keep : OthersKeep IsConsistent env) (w : World)
      → IsConsistent t
      → w.tables ≡ t
      → Ends Succeeds Fails (transfer_by_username env dst_username src amount w)
  unfolding transfer_by_username
  transfer_by_username-Ends keep w c same =
      let to = λ (u : User). transfer_to env u.id src amount in
      let body : Action Unit = dst_user_by_username env dst_username >>= to in
      Ends-wrapped "transfer.Transferer" Succeeds Fails body w (
        Ends-then (λ u v. Others env t v.tables × IsNamed dst_username v.tables.users u) Succeeds
          (λ _ v. Others env t v.tables) Fails (dst_user_by_username env dst_username) to w
          (lookup-Ends w same) (λ _ v o. inl o)
          (λ u v h.
            rw (h.1.user) (
              transfer_to-Ends keep h.1.row v (Others-keep IsConsistent keep h.0 c) h.0 h.1.found)))

IsSent-IsConsistent :
    (env : Env) (name : String) (src : Uuid) (amount : ℤ) (t t' : Tables)
    → OthersKeep IsConsistent env
    → IsConsistent t
    → IsSent env name src amount t t'
    → IsConsistent t'
IsSent-IsConsistent env name src amount t t' keep c s =
    Change-IsConsistent (IsTransfer-Change s.dst.id src amount s.at_begin t' s.users_differ s.moved)
      (Others-keep IsConsistent keep s.before_begin
        (Others-keep IsConsistent keep s.before_lookup c))

-- TransferByUsername keeps consistent tables consistent, however it ends, if other clients keep
-- them so.
pub transfer_by_username-IsConsistent :
    (env : Env) (name : String) (src : Uuid) (amount : ℤ) (w : World)
    → OthersKeep IsConsistent env
    → IsConsistent w.tables
    → IsConsistent (transfer_by_username env name src amount w).1.tables
transfer_by_username-IsConsistent env name src amount w keep c =
    let sent = IsSent-IsConsistent env name src amount w.tables in
    Ends-tables IsConsistent (Succeeds env name src amount w.tables)
      (Fails env name src amount w.tables) (transfer_by_username env name src amount w)
      (λ _ v s. sent v.tables keep c s)
      (λ _ v h. elim h [
        | inl o ↦ Others-keep IsConsistent keep o c
        | inr s ↦ sent v.tables keep c s
      ])
      (transfer_by_username-Ends env name src amount w.tables keep w c refl)
