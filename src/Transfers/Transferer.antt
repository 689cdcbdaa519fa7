-- ===== src/Transfers/Transferer.antt =====
-- internal/transfer/transferer.go
use merch.Base.{String, Option, none, some, List, [], ◌∷◌, ◌==◌, if◌then◌else◌}
use merch.Base.Int.{ℤ, pos, ◌+ℤ◌, ◌-ℤ◌, ltb_ℤ}
use merch.Base.Lists.{filter, any}
use merch.Go.Errors.{
  unique_violation, check_violation, foreign_key_violation, numeric_value_out_of_range, pg_error,
  sentinel, user_not_exist, dst_user_not_found, src_user_and_dst_user_equal, not_enough, Result, ok,
  err, panic, errors_is,
}
use merch.Go.Words.{wrap64}
use merch.Postgres.Schema.{Uuid, UserRow, TransferRow, in_integer, ge_0}
use merch.Postgres.Session.{
  Env, Action, Statement, Defaults, done, refused, Executor, pool, tx, query, begin, commit,
  deferring_rollback, fail_with, lift, wrapped, ◌>>=◌, ◌>>◌,
}
use merch.Postgres.Rows.{collect_rows, collect_exactly_one_row}
use merch.Users.Model.{User, row_to_user}
use merch.Users.Getter.{get_user_by_username}
use merch.Users.Balance.{update_user_balance}
use merch.Transfers.Model.{Transfer, row_to_transfer}

-- map[uuid.UUID]*user.User: what was put in last is found first
abbrev pub UsersMap : Type 0
UsersMap = List (Uuid × User)

unfoldable pub user_at : UsersMap → Uuid → Option User
user_at [] id = none
user_at ((k, u) ∷ m) id = if k == id then some u else user_at m id

-- for _, u := range users { usersMap[u.ID] = u }
unfoldable pub users_map : UsersMap → List User → UsersMap
users_map m [] = m
users_map m (u ∷ us) = users_map ((u.id, u) ∷ m) us

-- for _, id := range ids { _, ok := usersMap[id]; … }
unfoldable pub check_ids : UsersMap → List Uuid → Result UsersMap
check_ids m [] = ok m
check_ids m (id ∷ ids) =
    let rest = check_ids m ids in
    elim (user_at m id) [ none ↦ err (sentinel user_not_exist) | some _ ↦ rest ]

-- pgx.CollectRows(rows, user.RowToUser), the map and the check of its keys
unfoldable pub checked_map : List Uuid → Result (List User) → Result UsersMap
checked_map ids (ok users) = check_ids (users_map [] users) ids
checked_map ids (err e) = err e
checked_map ids panic = panic

unfoldable pub users_by_ids : List Uuid → List UserRow → Result UsersMap
unfolding checked_map
users_by_ids ids rows = checked_map ids (collect_rows row_to_user rows)

-- SELECT … FROM users WHERE id = ANY($1) FOR UPDATE
unfoldable pub select_users_by_ids : List Uuid → Statement (List UserRow)
select_users_by_ids ids d t = done (filter (λ u. any (λ id. u.id == id) ids) t.users) t

abbrev pub new_transfer_row : Defaults → Uuid → Uuid → ℤ → TransferRow
new_transfer_row d dst_user_id src_user_id amount = record {
  id = d.ids 0;
  created_at = d.created_at;
  dst_user_id = dst_user_id;
  src_user_id = src_user_id;
  amount = amount;
}

-- INSERT INTO transfers (dst_user_id, src_user_id, amount) VALUES (…) RETURNING …
unfoldable pub insert_transfer : Uuid → Uuid → ℤ → Statement (List TransferRow)
insert_transfer dst_user_id src_user_id amount d t =
    let row = new_transfer_row d dst_user_id src_user_id amount in
    if in_integer amount
    then if ge_0 amount
      then if any (λ x. x.id == d.ids 0) t.transfers
        then refused (pg_error unique_violation "transfers_pkey")
        else if any (λ u. u.id == dst_user_id) t.users
        then if any (λ u. u.id == src_user_id) t.users
          then done (row ∷ []) (record t { transfers = row ∷ t.transfers })
          else refused (pg_error foreign_key_violation "transfers_src_user_id_fkey")
        else refused (pg_error foreign_key_violation "transfers_dst_user_id_fkey")
      else refused (pg_error check_violation "transfers_amount_ge_0")
    else refused (pg_error numeric_value_out_of_range "")

-- A pointer that is not in the map is nil, and `.Balance` of it panics.
unfoldable pub deref : Option User → Result User
deref none = panic
deref (some u) = ok u

-- if errors.Is(err, user.ErrNotExist) { return ErrDstUserNotFound }
unfoldable pub not_exist_as_dst_not_found : Result User → Result User
not_exist_as_dst_not_found (ok u) = ok u
not_exist_as_dst_not_found (err e) =
    if errors_is e user_not_exist then err (sentinel dst_user_not_found) else err e
not_exist_as_dst_not_found panic = panic

module _ (env : Env) where
  unfoldable pub get_users_by_ids_for_update : Executor → List Uuid → Action UsersMap
  get_users_by_ids_for_update db ids = do
    rows ← query env db (select_users_by_ids ids)
    lift (users_by_ids ids rows)

  unfoldable pub create_transfer : Executor → Uuid → Uuid → ℤ → Action Transfer
  create_transfer db dst_user_id src_user_id amount = do
    rows ← query env db (insert_transfer dst_user_id src_user_id amount)
    lift (collect_exactly_one_row row_to_transfer rows)

  -- from `createTransfer` to `tx.Commit`
  unfoldable pub record_transfer : Uuid → Uuid → ℤ → ℤ → ℤ → Action Unit
  record_transfer dst_user_id src_user_id amount src_user_balance dst_user_balance = do
    create_transfer tx dst_user_id src_user_id amount
    update_user_balance env tx src_user_id src_user_balance
    update_user_balance env tx dst_user_id dst_user_balance
    commit env

  -- from `srcUser := usersMap[srcUserID]` on
  unfoldable pub move_coins : Uuid → Uuid → ℤ → UsersMap → Action Unit
  move_coins dst_user_id src_user_id amount users = do
    src_user ← lift (deref (user_at users src_user_id))
    let src_user_balance = wrap64 (src_user.balance -ℤ amount)
    if ltb_ℤ src_user_balance (pos 0) then fail_with not_enough else do
      dst_user ← lift (deref (user_at users dst_user_id))
      let dst_user_balance = wrap64 (dst_user.balance +ℤ amount)
      record_transfer dst_user_id src_user_id amount src_user_balance dst_user_balance

  -- what runs between `Begin` and the deferred `Rollback`
  unfoldable pub transfer_in_tx : Uuid → Uuid → ℤ → Action Unit
  transfer_in_tx dst_user_id src_user_id amount = do
    users ← get_users_by_ids_for_update tx (src_user_id ∷ dst_user_id ∷ [])
    move_coins dst_user_id src_user_id amount users

  unfoldable pub dst_user_by_username : String → Action User
  dst_user_by_username dst_username w =
      let (r, w') = get_user_by_username env pool dst_username w in
      (not_exist_as_dst_not_found r, w')

  unfoldable pub transfer_to : Uuid → Uuid → ℤ → Action Unit
  transfer_to dst_user_id src_user_id amount =
      if src_user_id == dst_user_id
      then fail_with src_user_and_dst_user_equal
      else do begin env; deferring_rollback (transfer_in_tx dst_user_id src_user_id amount)

  unfoldable pub transfer_by_username : String → Uuid → ℤ → Action Unit
  unfolding dst_user_by_username transfer_to
  transfer_by_username dst_username src_user_id amount =
      wrapped "transfer.Transferer" (do
        dst_user ← dst_user_by_username dst_username
        transfer_to dst_user.id src_user_id amount)
