-- ===== src/Purchases/Model.antt =====
-- internal/purchase/purchase.go
use merch.Base.{String, ℕ}
use merch.Base.Int.{ℤ}
use merch.Go.Errors.{Result, ok}
use merch.Postgres.Schema.{Uuid, Time, PurchaseRow}

pub record Purchase : Type 0 where
  pub id : Uuid
  pub created_at : Time
  pub user_id : Uuid
  pub item_id : Uuid
  pub amount : ℤ

unfoldable pub row_to_purchase : PurchaseRow → Result Purchase
row_to_purchase collected = ok (record {
  id = collected.id;
  created_at = collected.created_at;
  user_id = collected.user_id;
  item_id = collected.item_id;
  amount = collected.amount;
})

-- purchase.ItemCountRow; `count(*)` is a natural number
pub record ItemCountRow : Type 0 where
  pub user_id : Uuid
  pub item_id : Uuid
  pub count : ℕ
  pub item_name : String

pub record ItemCount : Type 0 where
  pub user_id : Uuid
  pub item_id : Uuid
  pub count : ℕ
  pub item_name : String

unfoldable pub row_to_item_count : ItemCountRow → Result ItemCount
row_to_item_count collected = ok (record {
  user_id = collected.user_id;
  item_id = collected.item_id;
  count = collected.count;
  item_name = collected.item_name;
})
