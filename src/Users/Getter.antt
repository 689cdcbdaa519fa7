-- ===== src/Users/Getter.antt =====
-- internal/user/getter.go
use merch.Base.{String, List, ◌==◌, str_eq, if◌then◌else◌}
use merch.Base.Lists.{filter}
use merch.Go.Errors.{sentinel, no_rows, user_not_exist, Result, ok, err, panic, errors_is}
use merch.Postgres.Schema.{Uuid, UserRow}
use merch.Postgres.Session.{Env, Action, Statement, done, Executor, query, lift, wrapped, ◌>>=◌}
use merch.Postgres.Rows.{collect_exactly_one_row}
use merch.Users.Model.{User, row_to_user}

-- SELECT … FROM users WHERE id = $1, with or without FOR UPDATE
unfoldable pub select_user_by_id : Uuid → Statement (List UserRow)
select_user_by_id id d t = done (filter (λ u. u.id == id) t.users) t

-- SELECT … FROM users WHERE username = $1
unfoldable pub select_user_by_username : String → Statement (List UserRow)
select_user_by_username username d t = done (filter (λ u. str_eq u.username username) t.users) t

-- if errors.Is(err, pgx.ErrNoRows) { return nil, ErrNotExist }
unfoldable pub no_rows_as_not_exist : {A : Type 0} → Result A → Result A
no_rows_as_not_exist (ok a) = ok a
no_rows_as_not_exist (err e) = if errors_is e no_rows then err (sentinel user_not_exist) else err e
no_rows_as_not_exist panic = panic

-- pgx.CollectExactlyOneRow(rows, RowToUser), and the test of its error
unfoldable pub exactly_one_user : List UserRow → Result User
unfolding no_rows_as_not_exist collect_exactly_one_row row_to_user errors_is
exactly_one_user rows = no_rows_as_not_exist (collect_exactly_one_row row_to_user rows)

module _ (env : Env) where
  unfoldable pub find_user : Executor → Uuid → Action User
  find_user db id = do rows ← query env db (select_user_by_id id); lift (exactly_one_user rows)

  unfoldable pub find_user_by_username : Executor → String → Action User
  find_user_by_username db username = do
    rows ← query env db (select_user_by_username username)
    lift (exactly_one_user rows)

  unfoldable pub get_user : Executor → Uuid → Action User
  unfolding find_user
  get_user db id = wrapped "user.Getter" (find_user db id)

  unfoldable pub get_user_by_username : Executor → String → Action User
  unfolding find_user_by_username
  get_user_by_username db username = wrapped "user.Getter" (find_user_by_username db username)
