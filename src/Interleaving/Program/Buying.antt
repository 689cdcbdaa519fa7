-- ===== src/Interleaving/Program/Buying.antt =====
-- The transaction of internal/purchase/purchaser.go.
use merch.Base.{◌≡◌, refl, inl, inr, Bool-cases, List, [], ◌∷◌, if◌then◌else◌}
use merch.Base.Int.{ℤ, pos, ◌-ℤ◌, ltb_ℤ}
use merch.Go.Errors.{sentinel, not_enough, Result, ok, err, panic}
use merch.Go.Results
use merch.Go.Words.{wrap64}
use merch.Postgres.Schema.{Uuid, UserRow}
use merch.Postgres.Session.{
  Env, World, Action, tx, query, commit, pure, lift, fail_with, continue, ◌>>=◌, ◌>>◌,
}
use merch.Users.Model.{User}
use merch.Users.Getter.{select_user_by_id, exactly_one_user}
use merch.Users.Balance.{update_user_balance}
use merch.Items.{Item}
use merch.Purchases.Model.{Purchase}
use merch.Purchases.Purchaser.{
  get_user_for_update, create_purchase, record_purchase, purchase_in_tx,
}
use merch.Interleaving.{buying, plan}
use merch.Interleaving.Program.{select_rows, insert_then, update_all, run_job, discard}

module _ (env : Env) where
  module _ (i : Item) (user : Uuid) where
    committed :
        (p : Purchase) (x : Result Unit × World)
        → continue (continue x (λ _. pure p)) (λ _. pure tt) ≡ x
    committed p (ok u, v) = refl
    committed p (err e, v) = refl
    committed p (panic, v) = refl

    updated :
        (p : Purchase) (x : Result User × World)
        → continue (continue x (λ _. commit env >>= λ _. pure p)) (λ _. pure tt)
          ≡ continue x (λ _. commit env)
    updated p (ok u, v) = committed p (commit env v)
    updated p (err e, v) = refl
    updated p (panic, v) = refl

    abbrev record_rest : ℤ → Purchase → Action Purchase
    record_rest b p = do update_user_balance env tx user b; commit env; pure p

    inserted :
        (b : ℤ) (x : Result Purchase × World)
        → continue (continue x (record_rest b)) (λ _. pure tt)
          ≡ continue x (λ _. update_user_balance env tx user b >> commit env)
    inserted b (ok p, v) = updated p (update_user_balance env tx user b v)
    inserted b (err e, v) = refl
    inserted b (panic, v) = refl

    paid :
        (b : ℤ) (v : World)
        → discard (record_purchase env user i b) v
          ≡ insert_then env (buying i user) (update_all env ((user, b) ∷ [])) v
    unfolding record_purchase insert_then update_all
    paid b v = inserted b (create_purchase env tx user i.id i.price v)

    abbrev balance_after : User → ℤ
    balance_after u = wrap64 (u.balance -ℤ i.price)

    from_buyer :
        (r : Result User) (v : World)
        → continue
            (continue
              (r, v)
              (λ u.
                if ltb_ℤ (balance_after u) (pos 0)
                then fail_with not_enough
                else record_purchase env user i (balance_after u)))
            (λ _. pure tt)
          ≡ continue
              (
                (Results.◌>>=◌ r λ u.
                    if ltb_ℤ (balance_after u) (pos 0)
                    then err (sentinel not_enough)
                    else ok ((user, balance_after u) ∷ [])),
                v,
              )
              (λ balances. insert_then env (buying i user) (update_all env balances))
    from_buyer (ok u) v = elim (Bool-cases (ltb_ℤ (balance_after u) (pos 0))) [
      | inl short ↦ rw short refl
      | inr enough ↦ rw enough (paid (balance_after u) v)
    ]
    from_buyer (err e) v = refl
    from_buyer panic v = refl

    pub purchase_in_tx-run_job :
        (w : World) → discard (purchase_in_tx env i user) w ≡ run_job env (buying i user) w
    unfolding purchase_in_tx run_job get_user_for_update select_rows plan
    purchase_in_tx-run_job w = rest_of (query env tx (select_user_by_id user) w)
      where
        rest_of :
            (x : Result (List UserRow) × World)
            → continue
                (continue (continue x (λ rows. lift (exactly_one_user rows))) (λ u.
                  if ltb_ℤ (balance_after u) (pos 0)
                  then fail_with not_enough
                  else record_purchase env user i (balance_after u)))
                (λ _. pure tt)
              ≡ continue x (λ rows v.
                continue
                  (plan (buying i user) rows, v)
                  (λ balances. insert_then env (buying i user) (update_all env balances)))
        rest_of (ok rows, v) = from_buyer (exactly_one_user rows) v
        rest_of (err e, v) = refl
        rest_of (panic, v) = refl
