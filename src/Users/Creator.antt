-- ===== src/Users/Creator.antt =====
-- internal/user/creator.go
use merch.Base.{
  String, ℕ, ◌+◌, Bool, true, false, Option, none, some, List, [], ◌∷◌, ◌++◌, ◌&&◌, ◌==◌, str_eq,
  if◌then◌else◌,
}
use merch.Base.Int.{ℤ, pos}
use merch.Base.Lists.{any}
use merch.Base.Reorderings.{IsReordered}
use merch.Go.Errors.{
  Error, Code, unique_violation, check_violation, foreign_key_violation, numeric_value_out_of_range,
  pg_error, sentinel, user_exist, ok, err, panic, errors_as_pg,
}
use merch.Postgres.Schema.{Bytes, UserRow, Tables, in_integer, ge_0}
use merch.Postgres.Session.{
  Env, Action, Statement, Outcome, done, refused, Executor, tx, query, begin, commit,
  deferring_rollback, pure, lift, wrapped, ◌>>=◌, ◌>>◌,
}
use merch.Postgres.Rows.{collect_rows, collect_exactly_one_row}
use merch.Users.Model.{User, row_to_user}
use merch.Users.Hashing.{PasswordHasher}

abbrev pub default_balance : ℤ
default_balance = pos 1000

pub record DataCreatorCreateUserParams : Type 0 where
  pub username : String
  pub password_hash : Bytes
  pub balance : ℤ

abbrev pub new_user_row : DataCreatorCreateUserParams → ℕ → UserRow
new_user_row p id = record {
  id = id;
  username = p.username;
  password_hash = p.password_hash;
  balance = p.balance;
}

-- INSERT INTO users (username, password_hash, balance) VALUES (…) RETURNING …
-- `n` numbers the row within its statement.
unfoldable pub insert_user : ℕ → DataCreatorCreateUserParams → Statement (List UserRow)
insert_user n p d t =
    if in_integer p.balance
    then if ge_0 p.balance
      then if any (λ u. u.id == d.ids n) t.users
        then refused (pg_error unique_violation "users_pkey")
        else if any (λ u. str_eq u.username p.username) t.users
        then refused (pg_error unique_violation "users_username_idx")
        else done (new_user_row p (d.ids n) ∷ [])
            (record t { users = new_user_row p (d.ids n) ∷ t.users })
      else refused (pg_error check_violation "users_balance_ge_0")
    else refused (pg_error numeric_value_out_of_range "")

-- pgerrcode.IsIntegrityConstraintViolation: the codes of class 23
is_integrity_constraint_violation : Code → Bool
is_integrity_constraint_violation unique_violation = true
is_integrity_constraint_violation check_violation = true
is_integrity_constraint_violation foreign_key_violation = true
is_integrity_constraint_violation numeric_value_out_of_range = false

unfoldable pub is_constraint_pg_error : Code × String → String → Bool
unfolding is_integrity_constraint_violation
is_constraint_pg_error (code, name) constraint =
    is_integrity_constraint_violation code && str_eq name constraint

-- the test of the error after an INSERT
taken_as_exist : Error → Option (Code × String) → Error
unfolding is_constraint_pg_error
taken_as_exist e none = e
taken_as_exist e (some p) =
    if is_constraint_pg_error p "users_username_idx" then sentinel user_exist else e

unfoldable pub or_exist : {A : Type 0} → Action A → Action A
unfolding taken_as_exist
or_exist m w =
    let (r, w') = m w in
    elim r [
      | ok a ↦ (ok a, w')
      | err e ↦ (err (taken_as_exist e (errors_as_pg e)), w')
      | panic ↦ (panic, w')
    ]

module _ (env : Env) where
  -- DataCreator.CreateUser
  unfoldable pub create_user_data : Executor → DataCreatorCreateUserParams → Action User
  unfolding or_exist
  create_user_data db params = or_exist (do
    rows ← query env db (insert_user 0 params)
    lift (collect_exactly_one_row row_to_user rows))

  -- Creator.CreateUser
  unfoldable pub create_user : PasswordHasher → Executor → String → Bytes → Action User
  create_user ph db username password = wrapped "user.Creator" (do
    password_hash ← (λ w. lift (ph.hash w.tick password) w)
    create_user_data db
        (record { username = username; password_hash = password_hash; balance = default_balance }))

-- CREATE TEMPORARY TABLE temp_users (…) ON COMMIT DROP: only this transaction sees it, so what it
-- holds is passed on as a value.
unfoldable pub create_temp_users : Statement Unit
create_temp_users d t = done tt t

-- COPY temp_users FROM STDIN: each balance must fit its column.
unfoldable pub copy_from :
    List DataCreatorCreateUserParams → Statement (List DataCreatorCreateUserParams)
copy_from ps d t =
    if any (λ p. if in_integer p.balance then false else true) ps
    then refused (pg_error numeric_value_out_of_range "")
    else done ps t

abbrev pub and_rows : List UserRow → Outcome (List UserRow) → Outcome (List UserRow)
and_rows rs (done rs' t) = done (rs ++ rs') t
and_rows rs (refused e) = refused e

abbrev pub and_then :
    Outcome (List UserRow) → (Tables → Outcome (List UserRow)) → Outcome (List UserRow)
and_then (done rs t) f = and_rows rs (f t)
and_then (refused e) f = refused e

-- one row after the other
unfoldable pub insert_each : ℕ → List DataCreatorCreateUserParams → Statement (List UserRow)
insert_each n [] d t = done [] t
insert_each n (p ∷ ps) d t = and_then (insert_user n p d t) (λ t'. insert_each (n + 1) ps d t')

-- Without an ORDER BY, PostgreSQL is free in the order in which a SELECT reads its rows and in which
-- a RETURNING answers; the choice may differ from request to request.
pub record RowOrder : Type 0 where
  pub scan : ℕ → List DataCreatorCreateUserParams → List DataCreatorCreateUserParams
  pub returning : ℕ → List UserRow → List UserRow
  pub scan-IsReordered :
      (n : ℕ) (ps : List DataCreatorCreateUserParams) → IsReordered ps (scan n ps)
  pub returning-IsReordered : (n : ℕ) (rows : List UserRow) → IsReordered rows (returning n rows)

abbrev pub returned_as :
    (List UserRow → List UserRow) → Outcome (List UserRow) → Outcome (List UserRow)
returned_as f (done rows t) = done (f rows) t
returned_as f (refused e) = refused e

-- INSERT INTO users … SELECT … FROM temp_users RETURNING …, as the request `n`
unfoldable pub insert_users :
    RowOrder → ℕ → List DataCreatorCreateUserParams → Statement (List UserRow)
insert_users order n ps d t = returned_as (order.returning n) (insert_each 0 (order.scan n ps) d t)

module _ (env : Env) (order : RowOrder) where
  -- DataCreator.CreateUsers, on the pool
  unfoldable pub create_users_data : List DataCreatorCreateUserParams → Action (List User)
  unfolding or_exist
  create_users_data params_users = do
    begin env
    deferring_rollback (do
      query env tx create_temp_users
      temp_users ← query env tx (copy_from params_users)
      users ← or_exist (do
        rows ← (λ w. query env tx (insert_users order w.tick temp_users) w)
        lift (collect_rows row_to_user rows))
      commit env
      pure users)
