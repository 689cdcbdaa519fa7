-- ===== src/Transfers/Model.antt =====
-- internal/transfer/transfer.go
use merch.Base.{String, Option, none, some}
use merch.Base.Int.{ℤ}
use merch.Go.Errors.{other, Result, ok, err}
use merch.Postgres.Schema.{Uuid, Time, TransferRow}

pub record Transfer : Type 0 where
  pub id : Uuid
  pub created_at : Time
  pub dst_user_id : Uuid
  pub src_user_id : Uuid
  pub amount : ℤ
  pub dst_username : String
  pub src_username : String

-- The two usernames stay at Go's zero value.
unfoldable pub row_to_transfer : TransferRow → Result Transfer
row_to_transfer collected = ok (record {
  id = collected.id;
  created_at = collected.created_at;
  dst_user_id = collected.dst_user_id;
  src_user_id = collected.src_user_id;
  amount = collected.amount;
  dst_username = "";
  src_username = "";
})

-- A username is NULL, `none`, where a LEFT JOIN found no user.
pub record RowWithUsernames : Type 0 where
  pub row : TransferRow
  pub dst_username : Option String
  pub src_username : Option String

null_into_string : Result Transfer
null_into_string = err (other "cannot scan NULL into *string")

with_usernames : TransferRow → Option String → Option String → Result Transfer
unfolding null_into_string
with_usernames r none s = null_into_string
with_usernames r (some d) none = null_into_string
with_usernames r (some d) (some s) = ok (record {
  id = r.id;
  created_at = r.created_at;
  dst_user_id = r.dst_user_id;
  src_user_id = r.src_user_id;
  amount = r.amount;
  dst_username = d;
  src_username = s;
})

-- A NULL does not scan into a `string`.
unfoldable pub row_to_transfer_with_usernames : RowWithUsernames → Result Transfer
unfolding with_usernames
row_to_transfer_with_usernames collected =
    with_usernames collected.row collected.dst_username collected.src_username
