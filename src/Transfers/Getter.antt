-- ===== src/Transfers/Getter.antt =====
-- internal/transfer/getter.go
use merch.Base.{
  String, Bool, true, false, ◌||◌, Option, none, some, List, [], ◌∷◌, ◌++◌, map, ◌==◌, ltb, leb,
  if◌then◌else◌,
}
use merch.Base.Lists.{filter}
use merch.Postgres.Schema.{Uuid, UserRow, TransferRow}
use merch.Postgres.Session.{Env, Action, Statement, done, Executor, query, lift, wrapped, ◌>>=◌}
use merch.Postgres.Rows.{collect_rows}
use merch.Transfers.Model.{Transfer, RowWithUsernames, row_to_transfer_with_usernames}

-- LEFT JOIN users ON … = users.id: the usernames of the rows that match, or one NULL
or_null : List (Option String) → List (Option String)
or_null [] = none ∷ []
or_null (x ∷ xs) = x ∷ xs

unfoldable pub joined_usernames : Uuid → List UserRow → List (Option String)
unfolding or_null
joined_usernames id us = or_null (map (λ u. some u.username) (filter (λ u. u.id == id) us))

-- the rows of the joins for one transfer
unfoldable pub with_src : TransferRow → Option String → List (Option String) → List RowWithUsernames
with_src x d [] = []
with_src x d (s ∷ ss) = record { row = x; dst_username = d; src_username = s } ∷ with_src x d ss

unfoldable pub with_dst :
    TransferRow → List (Option String) → List (Option String) → List RowWithUsernames
with_dst x [] ss = []
with_dst x (d ∷ ds) ss = with_src x d ss ++ with_dst x ds ss

unfoldable pub join_usernames : List UserRow → List TransferRow → List RowWithUsernames
join_usernames us [] = []
join_usernames us (x ∷ xs) =
    with_dst x (joined_usernames x.dst_user_id us) (joined_usernames x.src_user_id us)
    ++ join_usernames us xs

-- ORDER BY t.created_at, t.id
unfoldable pub before : TransferRow → TransferRow → Bool
before x y =
    if ltb x.created_at y.created_at
    then true
    else if x.created_at == y.created_at
    then leb x.id y.id
    else false

unfoldable pub insert_row : RowWithUsernames → List RowWithUsernames → List RowWithUsernames
insert_row x [] = x ∷ []
insert_row x (y ∷ ys) = if before x.row y.row then x ∷ y ∷ ys else y ∷ insert_row x ys

unfoldable pub order_rows : List RowWithUsernames → List RowWithUsernames
order_rows [] = []
order_rows (x ∷ xs) = insert_row x (order_rows xs)

abbrev pub concerns : Uuid → TransferRow → Bool
concerns id x = x.dst_user_id == id || x.src_user_id == id

unfoldable pub select_transfers_by_user_id : Uuid → Statement (List RowWithUsernames)
select_transfers_by_user_id id d t =
    done (order_rows (join_usernames t.users (filter (concerns id) t.transfers))) t

module _ (env : Env) where
  -- getTransfersByUserID
  unfoldable pub find_transfers_by_user_id : Executor → Uuid → Action (List Transfer)
  find_transfers_by_user_id db user_id = do
    rows ← query env db (select_transfers_by_user_id user_id)
    lift (collect_rows row_to_transfer_with_usernames rows)

  -- Getter.GetTransfersByUserID
  unfoldable pub get_transfers_by_user_id : Executor → Uuid → Action (List Transfer)
  unfolding find_transfers_by_user_id
  get_transfers_by_user_id db user_id =
      wrapped "transfer.Getter" (find_transfers_by_user_id db user_id)
