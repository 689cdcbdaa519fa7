-- ===== src/Go/Errors.antt =====
-- Go's errors as values: sentinels, PostgreSQL errors, and `fmt.Errorf("…: %w", err)`.
use merch.Base.{ℕ, String, Bool, false, Option, none, some, ◌==◌}

-- The variables that the program and pgx compare with `errors.Is`.
pub data Sentinel : Type 0 where
  user_exist user_not_exist item_not_exist not_enough dst_user_not_found : Sentinel
  src_user_and_dst_user_equal password_not_match invalid_username_or_password : Sentinel
  no_rows too_many_rows tx_closed : Sentinel
  -- os.ErrNotExist
  file_not_exist : Sentinel
  -- http.ErrServerClosed
  server_closed : Sentinel
  -- migrate.ErrNoChange
  no_change : Sentinel

-- SQLSTATE classes that the schema can raise.
pub data Code : Type 0 where
  unique_violation check_violation foreign_key_violation numeric_value_out_of_range : Code

pub data Error : Type 0 where
  sentinel : Sentinel → Error
  -- `*pgconn.PgError`: its code and the name of the constraint
  pg_error : Code → String → Error
  -- `errors.New` at the place of use, and errors of other packages
  other : String → Error
  -- `fmt.Errorf("prefix: %w", err)`
  wrap : String → Error → Error

pub data Result (A : Type 0) : Type 0 where
  ok : A → Result A
  err : Error → Result A
  -- the goroutine panics
  panic : Result A

-- Each sentinel is a variable of its own, so `==` on them compares identities.
identity : Sentinel → ℕ
identity user_exist = 0
identity user_not_exist = 1
identity item_not_exist = 2
identity not_enough = 3
identity dst_user_not_found = 4
identity src_user_and_dst_user_equal = 5
identity password_not_match = 6
identity invalid_username_or_password = 7
identity no_rows = 8
identity too_many_rows = 9
identity tx_closed = 10
identity file_not_exist = 11
identity server_closed = 12
identity no_change = 13

-- `errors.Is` follows the chain of wrapped errors.
unfoldable pub errors_is : Error → Sentinel → Bool
unfolding identity
errors_is (sentinel s) t = identity s == identity t
errors_is (pg_error c n) t = false
errors_is (other m) t = false
errors_is (wrap p e) t = errors_is e t

-- `errors.As` with a `*pgconn.PgError` target.
unfoldable pub errors_as_pg : Error → Option (Code × String)
errors_as_pg (sentinel s) = none
errors_as_pg (pg_error c n) = some (c, n)
errors_as_pg (other m) = none
errors_as_pg (wrap p e) = errors_as_pg e

unfoldable pub wrap_result : {A : Type 0} → String → Result A → Result A
wrap_result p (ok a) = ok a
wrap_result p (err e) = err (wrap p e)
wrap_result p panic = panic
