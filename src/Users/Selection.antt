-- ===== src/Users/Selection.antt =====
-- What the queries for one user select.
use merch.Base.{
  map, ℕ, ◌+◌, String, ◌≡◌, refl, ap, true, none, some, List, [], ◌∷◌, arith, ◌==◌, str_eq, eq_iff,
  Bool-cases, inl, inr, subst,
}
use merch.Base.Int.{ℤ}
use merch.Base.Lists.{filter, any}
use merch.Go.Errors.{ok, err, sentinel, user_not_exist, wrap}
use merch.Postgres.Schema.{Uuid, UserRow, Tables, in_integer, ge_0}
use merch.Postgres.Session.{Env, World, Defaults, done, tx, pool, defaults, arrived}
use merch.Postgres.Delivery.{
  Delivers, midway, closed, tx_scan, pool_scan, pool_scan_result, wrapped_ok, wrapped_err,
}
use merch.Users.Model.{user_of, row_to_user}
use merch.Postgres.Rows.{collect_rows}
use merch.Users.Getter.{
  exactly_one_user, get_user_by_username, find_user_by_username, select_user_by_username,
}
use merch.Users.Balance.{set_balance, update_balance, update_user_balance}
use merch.Ledger.Accounts.{find, find_username, find-set_balance}
use merch.Ledger.Invariant.{HasDistinctKeys, IsAmount, set_balance-HasDistinctKeys}

pub filter-none :
    (id : Uuid) (us : List UserRow) → find id us ≡ none → filter (λ u. u.id == id) us ≡ []
unfolding filter find
filter-none id [] e = refl
filter-none id (u ∷ us) e = ground (arith, filter-none id us)

-- The primary key leaves one row for an id,
pub filter_one :
    (id : Uuid) (us : List UserRow) (u : UserRow)
    → HasDistinctKeys us
    → find id us ≡ some u
    → filter (λ u. u.id == id) us ≡ u ∷ []
unfolding filter find
filter_one id [] u k e = cc
filter_one id (v ∷ us) u k e = ground (arith, filter-none id us, filter_one id us u k.2)

pub filter_name_none :
    (name : String) (us : List UserRow)
    → find_username name us ≡ none
    → filter (λ u. str_eq u.username name) us ≡ []
unfolding filter find_username
filter_name_none name [] e = refl
filter_name_none name (u ∷ us) e = ground (arith, filter_name_none name us)

-- and the unique index one row for a username.
pub filter_name_one :
    (name : String) (us : List UserRow) (u : UserRow)
    → HasDistinctKeys us
    → find_username name us ≡ some u
    → filter (λ u. str_eq u.username name) us ≡ u ∷ []
unfolding filter find_username
filter_name_one name [] u k e = cc
filter_name_one name (v ∷ us) u k e = elim (Bool-cases (str_eq v.username name)) [
  | inl same ↦
      let rest =
        filter_name_none name us
          (subst (λ n. find_username n us ≡ none) ((eq_iff v.username name).0 same) k.1) in
      ground (arith, same, rest)
  | inr other ↦ ground (arith, other, filter_name_one name us u k.2)
]

pub exactly_one : (u : UserRow) → exactly_one_user (u ∷ []) ≡ ok (user_of u)
unfolding exactly_one_user
exactly_one u = refl

pub any_found :
    (id : Uuid) (us : List UserRow) (u : UserRow)
    → find id us ≡ some u
    → any (λ u. u.id == id) us ≡ true
unfolding find
any_found id [] u e = cc
any_found id (v ∷ us) u e = ground (arith, any_found id us u)

-- An update of the balance of a user that exists.
pub update_balance_done :
    (id : Uuid) (b : ℤ) (d : Defaults) (t : Tables) (u : UserRow)
    → HasDistinctKeys t.users
    → find id t.users ≡ some u
    → IsAmount b
    → update_balance id b d t
      ≡ done (record u { balance = b } ∷ []) (record t { users = set_balance id b t.users })
unfolding update_balance in_integer ge_0
update_balance_done id b d t u k e fits =
    let found : find id (set_balance id b t.users) ≡ some (record u { balance = b }) =
      ground (arith, find-set_balance id id b t.users) in
    let one =
      filter_one id (set_balance id b t.users) (record u { balance = b })
        (set_balance-HasDistinctKeys id b t.users k) found in
    rw (update_balance, one) (ground arith)

pub update_user_balance_done :
    (env : Env) (id : Uuid) (b : ℤ) (t p : Tables) (n : ℕ) (u : UserRow)
    → Delivers env
    → HasDistinctKeys p.users
    → find id p.users ≡ some u
    → IsAmount b
    → update_user_balance env tx id b (midway t p n) ≡ (
      ok (user_of (record u { balance = b })),
      midway t (record p { users = set_balance id b p.users }) (n + 1),
    )
unfolding update_user_balance
update_user_balance_done env id b t p n u delivers k e fits =
    tx_scan env delivers (update_balance id b) exactly_one_user t p n _ _ _
      (update_balance_done id b (defaults env n) p u k e fits) (exactly_one _)

pub get_user_by_username_done :
    (env : Env) (name : String) (w : World) (u : UserRow)
    → Delivers env
    → HasDistinctKeys (arrived env w).users
    → find_username name (arrived env w).users ≡ some u
    → get_user_by_username env pool name w ≡ (ok (user_of u), closed (arrived env w) (w.tick + 1))
unfolding get_user_by_username find_user_by_username select_user_by_username
get_user_by_username_done env name w u delivers k e =
    wrapped_ok "user.Getter" (find_user_by_username env pool name) (user_of u) w _ (
      pool_scan env delivers (select_user_by_username name) exactly_one_user w (u ∷ [])
        (arrived env w) (user_of u)
        (ap (λ rows. done rows (arrived env w)) (filter_name_one name (arrived env w).users u k e))
        (exactly_one u))

-- A username that nobody has.
pub get_user_by_username_absent :
    (env : Env) (name : String) (w : World)
    → Delivers env
    → find_username name (arrived env w).users ≡ none
    → get_user_by_username env pool name w
      ≡ (err (wrap "user.Getter" (sentinel user_not_exist)), closed (arrived env w) (w.tick + 1))
unfolding get_user_by_username find_user_by_username select_user_by_username exactly_one_user
get_user_by_username_absent env name w delivers e =
    wrapped_err "user.Getter" (find_user_by_username env pool name) (sentinel user_not_exist) w _ (
      pool_scan_result env delivers (select_user_by_username name) exactly_one_user w []
        (arrived env w) (err (sentinel user_not_exist))
        (ap (λ rows. done rows (arrived env w)) (filter_name_none name (arrived env w).users e))
        refl)

-- Every row of the users can be scanned.
pub collect_rows-row_to_user :
    (rows : List UserRow) → collect_rows row_to_user rows ≡ ok (map user_of rows)
unfolding collect_rows row_to_user
collect_rows-row_to_user [] = refl
collect_rows-row_to_user (r ∷ rows) = rw (collect_rows-row_to_user rows)
