-- ===== src/Interleaving/Program/Sending.antt =====
-- The transaction of internal/transfer/transferer.go.
use merch.Base.{◌≡◌, refl, inl, inr, Bool-cases, List, [], ◌∷◌, if◌then◌else◌}
use merch.Base.Int.{ℤ, pos, ◌+ℤ◌, ◌-ℤ◌, ltb_ℤ}
use merch.Go.Errors.{sentinel, not_enough, Result, ok, err, panic}
use merch.Go.Results
use merch.Go.Words.{wrap64}
use merch.Postgres.Schema.{Uuid, UserRow}
use merch.Postgres.Session.{Env, World, tx, query, lift, fail_with, continue, ◌>>=◌}
use merch.Users.Model.{User}
use merch.Transfers.Transferer.{
  UsersMap, user_at, users_by_ids, deref, select_users_by_ids, get_users_by_ids_for_update,
  move_coins, record_transfer, transfer_in_tx,
}
use merch.Interleaving.{sending, plan}
use merch.Interleaving.Program.{select_rows, insert_then, update_all, run_job}

module _ (env : Env) where
  module _ (dst src : Uuid) (amount : ℤ) (rows : List UserRow) (v : World) where
    abbrev rest : Result (List (Uuid × ℤ)) → Result Unit × World
    rest r =
        continue (r, v)
          (λ balances. insert_then env (sending dst src amount) (update_all env balances))

    abbrev debited : User → ℤ
    debited u = wrap64 (u.balance -ℤ amount)

    abbrev credited : User → ℤ
    credited u = wrap64 (u.balance +ℤ amount)

    -- the receiver's row
    to_receiver :
        (s : User) (d : Result User)
        → continue (d, v) (λ u. record_transfer env dst src amount (debited s) (credited u))
          ≡ rest (Results.◌>>=◌ d λ u. ok ((src, debited s) ∷ (dst, credited u) ∷ []))
    unfolding record_transfer insert_then update_all
    to_receiver s (ok u) = refl
    to_receiver s (err x) = refl
    to_receiver s panic = refl

    -- the sender's row
    from_sender :
        (s d : Result User)
        → continue
            (s, v)
            (λ u.
              if ltb_ℤ (debited u) (pos 0)
              then fail_with not_enough
              else (lift d >>= λ x. record_transfer env dst src amount (debited u) (credited x)))
          ≡ rest (
              Results.◌>>=◌ s λ u.
                if ltb_ℤ (debited u) (pos 0)
                then err (sentinel not_enough)
                else (Results.◌>>=◌ d λ x. ok ((src, debited u) ∷ (dst, credited x) ∷ [])))
    from_sender (ok u) d = elim (Bool-cases (ltb_ℤ (debited u) (pos 0))) [
      | inl short ↦ rw short refl
      | inr enough ↦ rw enough (to_receiver u d)
    ]
    from_sender (err x) d = refl
    from_sender panic d = refl

    pub moved :
        (m : Result UsersMap)
        → users_by_ids (src ∷ dst ∷ []) rows ≡ m
        → continue (m, v) (move_coins env dst src amount)
          ≡ rest (plan (sending dst src amount) rows)
    unfolding move_coins plan
    moved (ok users) e = rw e (from_sender (deref (user_at users src)) (deref (user_at users dst)))
    moved (err x) e = rw e refl
    moved panic e = rw e refl

  pub transfer_in_tx-run_job :
      (dst src : Uuid) (amount : ℤ) (w : World)
      → transfer_in_tx env dst src amount w ≡ run_job env (sending dst src amount) w
  unfolding transfer_in_tx run_job get_users_by_ids_for_update select_rows
  transfer_in_tx-run_job dst src amount w =
      rest_of (query env tx (select_users_by_ids (src ∷ dst ∷ [])) w)
    where
      rest_of :
          (x : Result (List UserRow) × World)
          → continue
              (continue x (λ rows. lift (users_by_ids (src ∷ dst ∷ []) rows)))
              (move_coins env dst src amount)
            ≡ continue x (λ rows v.
              continue
                (plan (sending dst src amount) rows, v)
                (λ balances. insert_then env (sending dst src amount) (update_all env balances)))
      rest_of (ok rows, v) = moved dst src amount rows v (users_by_ids (src ∷ dst ∷ []) rows) refl
      rest_of (err e, v) = refl
      rest_of (panic, v) = refl
