-- ===== src/Users/Model.antt =====
-- internal/user/user.go
use merch.Base.{String}
use merch.Base.Int.{ℤ}
use merch.Go.Errors.{Result, ok}
use merch.Postgres.Schema.{Uuid, Bytes, UserRow}

pub record User : Type 0 where
  pub id : Uuid
  pub username : String
  pub password_hash : Bytes
  pub balance : ℤ

-- the User with a row's columns
abbrev pub user_of : UserRow → User
user_of r = record {
  id = r.id;
  username = r.username;
  password_hash = r.password_hash;
  balance = r.balance;
}

-- Every column that a query on `users` returns is NOT NULL and scans into its field.
unfoldable pub row_to_user : UserRow → Result User
row_to_user collected = ok (record {
  id = collected.id;
  username = collected.username;
  password_hash = collected.password_hash;
  balance = collected.balance;
})
