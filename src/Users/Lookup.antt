-- ===== src/Users/Lookup.antt =====
-- What the getters of internal/user return.
use merch.Base.{◌+◌, String, ◌≡◌, refl, true, none, some, List, [], ◌∷◌, arith, ◌==◌, str_eq}
use merch.Go.Errors.{Error, user_not_exist, errors_is, wrap_result}
use merch.Base.Lists.{filter}
use merch.Postgres.Schema.{Uuid, UserRow}
use merch.Postgres.Session.{
  Env, World, Reply, delivered, lost_before, lost_after, done, pool, query, on_pool, arrived,
  continue, lift, wrapped,
}
use merch.Postgres.Triples.{Ends, Ends-wrapped}
use merch.Postgres.Transactions.{Yields, Yields-mono}
use merch.Postgres.Pool.{after, TablesAre, read-Ends}
use merch.Users.Model.{User, user_of}
use merch.Users.Getter.{
  exactly_one_user, select_user_by_id, select_user_by_username, find_user, find_user_by_username,
  get_user, get_user_by_username,
}
use merch.Ledger.Accounts.{find, find_username}

-- the user of a username
pub record IsNamed (name : String) (us : List UserRow) (u : User) : Type 0 where
  pub row : UserRow
  pub found : find_username name us ≡ some row
  pub user : u ≡ user_of row

pub record IsWithId (id : Uuid) (us : List UserRow) (u : User) : Type 0 where
  pub row : UserRow
  pub found : find id us ≡ some row
  pub user : u ≡ user_of row

-- A result means that exactly one row was selected.
one_row :
    (rows : List UserRow)
    → Yields (λ u. (r : UserRow) × (rows ≡ r ∷ []) × (u ≡ user_of r)) (exactly_one_user rows)
unfolding exactly_one_user
one_row [] = tt
one_row (r ∷ []) = (r, refl, refl)
one_row (r ∷ x ∷ rows) = tt

filter-find_username :
    (name : String) (us : List UserRow) (r : UserRow) (rest : List UserRow)
    → filter (λ u. str_eq u.username name) us ≡ r ∷ rest
    → find_username name us ≡ some r
unfolding filter find_username
filter-find_username name [] r rest e = cc
filter-find_username name (u ∷ us) r rest e = ground (arith, filter-find_username name us r rest)

filter-find :
    (id : Uuid) (us : List UserRow) (r : UserRow) (rest : List UserRow)
    → filter (λ u. u.id == id) us ≡ r ∷ rest
    → find id us ≡ some r
unfolding filter find
filter-find id [] r rest e = cc
filter-find id (u ∷ us) r rest e = ground (arith, filter-find id us r rest)

pub IsNamed-Yields :
    (name : String) (us : List UserRow)
    → Yields (IsNamed name us) (exactly_one_user (filter (λ u. str_eq u.username name) us))
IsNamed-Yields name us =
    Yields-mono _ (IsNamed name us) (exactly_one_user (filter (λ u. str_eq u.username name) us))
      (λ u (r, e, same). record {
        row = r;
        found = filter-find_username name us r [] e;
        user = same;
      })
      (one_row (filter (λ u. str_eq u.username name) us))

pub IsWithId-Yields :
    (id : Uuid) (us : List UserRow)
    → Yields (IsWithId id us) (exactly_one_user (filter (λ u. u.id == id) us))
IsWithId-Yields id us =
    Yields-mono _ (IsWithId id us) (exactly_one_user (filter (λ u. u.id == id) us))
      (λ u (r, e, same). record { row = r; found = filter-find id us r [] e; user = same })
      (one_row (filter (λ u. u.id == id) us))

-- GetUserByUsername on the pool does not panic and leaves the tables as the other clients made
-- them; if it returns, it returns the user with that name in them.
pub get_user_by_username-Ends :
    (env : Env) (name : String) (w : World)
    → Ends
        (λ u v. (v.tables ≡ arrived env w) × IsNamed name (arrived env w).users u)
        (TablesAre (arrived env w))
        (get_user_by_username env pool name w)
unfolding get_user_by_username find_user_by_username select_user_by_username
get_user_by_username-Ends env name w =
    Ends-wrapped "user.Getter" _ (TablesAre (arrived env w)) (find_user_by_username env pool name) w
      (read-Ends env (select_user_by_username name) exactly_one_user w _
        (IsNamed name (arrived env w).users) refl (IsNamed-Yields name (arrived env w).users))

-- GetUser on the pool returns the user with that id, and changes nothing.
pub get_user-Ends :
    (env : Env) (id : Uuid) (w : World)
    → Ends
        (λ u v. (v.tables ≡ arrived env w) × IsWithId id (arrived env w).users u)
        (TablesAre (arrived env w))
        (get_user env pool id w)
unfolding get_user find_user select_user_by_id
get_user-Ends env id w =
    Ends-wrapped "user.Getter" _ (TablesAre (arrived env w)) (find_user env pool id) w (
      read-Ends env (select_user_by_id id) exactly_one_user w _ (IsWithId id (arrived env w).users)
        refl (IsWithId-Yields id (arrived env w).users))

-- what a failed lookup says: where the error is ErrNotExist, nobody had the name
abbrev pub IsMissing : String → List UserRow → Error → Type 0
IsMissing name us e = errors_is e user_not_exist ≡ true → find_username name us ≡ none

filter-none_found :
    (name : String) (us : List UserRow)
    → filter (λ u. str_eq u.username name) us ≡ []
    → find_username name us ≡ none
unfolding filter find_username
filter-none_found name [] e = refl
filter-none_found name (u ∷ us) e = ground (arith, filter-none_found name us)

module _ (env : Env) (name : String) (w : World) where
  abbrev pub LookedUp : User → World → Type 0
  LookedUp u v = (v ≡ after env w) × IsNamed name (arrived env w).users u

  abbrev pub NotLookedUp : Error → World → Type 0
  NotLookedUp e v = (v ≡ after env w) × IsMissing name (arrived env w).users e

  scanned :
      (rows : List UserRow)
      → filter (λ u. str_eq u.username name) (arrived env w).users ≡ rows
      → Ends LookedUp NotLookedUp (wrap_result "user.Getter" (exactly_one_user rows), after env w)
  unfolding exactly_one_user wrap_result errors_is
  scanned [] e = (refl, λ is. filter-none_found name (arrived env w).users e)
  scanned (r ∷ []) e =
      let found = filter-find_username name (arrived env w).users r [] e in
      (refl, record { row = r; found = found; user = refl })
  scanned (r ∷ x ∷ rows) e = (refl, λ is. cc)

  answered :
      (reply : Reply)
      → Ends LookedUp NotLookedUp (
          wrapped "user.Getter"
            (λ (_ : World).
              continue
                (on_pool reply
                  (done
                    (filter (λ u. str_eq u.username name) (arrived env w).users)
                    (arrived env w))
                  (arrived env w)
                  (w.tick + 1))
                (λ rows. lift (exactly_one_user rows)))
            w)
  unfolding on_pool wrap_result errors_is
  answered delivered = scanned (filter (λ u. str_eq u.username name) (arrived env w).users) refl
  answered lost_before = (refl, λ is. cc)
  answered lost_after = (refl, λ is. cc)

  -- GetUserByUsername on the pool makes one request. If it fails with ErrNotExist, nobody has the
  -- name.
  pub get_user_by_username-LookedUp :
      Ends LookedUp NotLookedUp (get_user_by_username env pool name w)
  unfolding get_user_by_username find_user_by_username select_user_by_username query
  get_user_by_username-LookedUp = answered (env.reply w.tick)
