-- ===== src/Postgres/Schema.antt =====
-- The tables of internal/app/migrationdata/0_init.up.sql, a record for each row type of the Go
-- packages that scan them. A table is a list of rows, the newest first; no statement depends on
-- that order, except where a SELECT has no ORDER BY.
use merch.Base.{ℕ, String, Bool, ◌&&◌, List, ◌^◌, ◌-◌}
use merch.Base.Int.{ℤ, pos, negsuc, leb_ℤ}

abbrev pub Uuid : Type 0
Uuid = ℕ

abbrev pub Time : Type 0
Time = ℕ

abbrev pub Bytes : Type 0
Bytes = List ℕ

-- user.Row
pub record UserRow : Type 0 where
  pub id : Uuid
  pub username : String
  pub password_hash : Bytes
  pub balance : ℤ

-- the `row` of item.RowToItem
pub record ItemRow : Type 0 where
  pub id : Uuid
  pub name : String
  pub price : ℤ

-- transfer.Row
pub record TransferRow : Type 0 where
  pub id : Uuid
  pub created_at : Time
  pub dst_user_id : Uuid
  pub src_user_id : Uuid
  pub amount : ℤ

-- purchase.Row
pub record PurchaseRow : Type 0 where
  pub id : Uuid
  pub created_at : Time
  pub user_id : Uuid
  pub item_id : Uuid
  pub amount : ℤ

pub record Tables : Type 0 where
  pub users : List UserRow
  pub items : List ItemRow
  pub transfers : List TransferRow
  pub purchases : List PurchaseRow

-- A column of type `integer` holds 32 bits; any other value is refused.
unfoldable pub in_integer : ℤ → Bool
in_integer z = leb_ℤ z (pos (2 ^ 31 - 1)) && leb_ℤ (negsuc (2 ^ 31 - 1)) z

-- CHECK (balance >= 0), CHECK (price >= 0), CHECK (amount >= 0)
unfoldable pub ge_0 : ℤ → Bool
ge_0 z = leb_ℤ (pos 0) z
