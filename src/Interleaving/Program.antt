-- ===== src/Interleaving/Program.antt =====
-- The transactions of the program are the statements of a job, one after the other.
pub mod Sending
pub mod Buying
pub mod Code
use merch.Base.{◌≡◌, refl, inl, inr, Bool-cases, List, [], ◌∷◌, if◌then◌else◌}
use merch.Base.Int.{ℤ, pos, ◌+ℤ◌, ◌-ℤ◌, ltb_ℤ}
use merch.Go.Errors.{sentinel, not_enough, Result, ok, err, panic}
use merch.Go.Results
use merch.Go.Words.{wrap64}
use merch.Postgres.Schema.{Uuid, UserRow}
use merch.Postgres.Session.{
  Env, World, Action, Statement, tx, query, commit, pure, lift, fail_with, continue, ◌>>=◌, ◌>>◌,
}
use merch.Users.Model.{User}
use merch.Users.Getter.{select_user_by_id, exactly_one_user}
use merch.Users.Balance.{update_user_balance}
use merch.Items.{Item}
use merch.Transfers.Transferer.{
  UsersMap, user_at, users_by_ids, deref, select_users_by_ids, get_users_by_ids_for_update,
  create_transfer, move_coins, record_transfer, transfer_in_tx,
}
use merch.Purchases.Model.{Purchase}
use merch.Purchases.Purchaser.{
  get_user_for_update, create_purchase, record_purchase, purchase_in_tx,
}
use merch.Interleaving.{Job, sending, buying, plan}

unfoldable pub select_rows : Job → Statement (List UserRow)
select_rows (sending dst_user_id src_user_id amount) =
    select_users_by_ids (src_user_id ∷ dst_user_id ∷ [])
select_rows (buying i user_id) = select_user_by_id user_id

abbrev pub discard : {A : Type 0} → Action A → Action Unit
discard m = do m; pure tt

module _ (env : Env) where
  unfoldable pub insert_then : Job → Action Unit → Action Unit
  insert_then (sending dst_user_id src_user_id amount) rest = do
    create_transfer env tx dst_user_id src_user_id amount
    rest
  insert_then (buying i user_id) rest = do create_purchase env tx user_id i.id i.price; rest

  -- the updates, and COMMIT
  unfoldable pub update_all : List (Uuid × ℤ) → Action Unit
  update_all [] = commit env
  update_all ((id, b) ∷ balances) = do update_user_balance env tx id b; update_all balances

  -- what a session runs between Begin and the deferred Rollback
  unfoldable pub run_job : Job → Action Unit
  run_job j = do
    rows ← query env tx (select_rows j)
    balances ← lift (plan j rows)
    insert_then j (update_all balances)
