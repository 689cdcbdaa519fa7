-- ===== src/Auth/Liveness.antt =====
-- Logins that return, where every request is delivered.
use merch.Base.{◌+◌, String, ◌≡◌, refl, ap, true, false, none, some, List, [], ◌∷◌, ◌==◌, str_eq}
use merch.Base.Lists.{any}
use merch.Go.Errors.{
  Error, sentinel, user_exist, unique_violation, pg_error, errors_as_pg, password_not_match,
  invalid_username_or_password, wrap, wrap_result, errors_is, ok, err,
}
use merch.Postgres.Schema.{Bytes, UserRow, Tables, in_integer, ge_0}
use merch.Postgres.Session.{Env, World, Action, pool, arrived, defaults, query, lift, ◌>>=◌}
use merch.Postgres.Delivery.{
  Delivers, closed, bind_ok, wrapped_ok, wrapped_err, pool_scan, pool_refused,
}
use merch.Postgres.Rows.{collect_exactly_one_row}
use merch.Users.Model.{user_of, row_to_user}
use merch.Users.Hashing.{PasswordHasher}
use merch.Users.Creator.{
  new_user_row, insert_user, or_exist, is_constraint_pg_error, create_user_data, create_user,
}
use merch.Users.Creation.{params_of}
use merch.Users.Selection.{get_user_by_username_done, get_user_by_username_absent}
use merch.Ledger.Accounts.{find_username}
use merch.Ledger.Invariant.{HasDistinctKeys}
use merch.Auth.Password.{
  check_password, create_or_get, register, authenticate_password, not_match_as_invalid,
}

or_exist_ok :
    {A : Type 0} (m : Action A) (w v : World) (a : A) → m w ≡ (ok a, v) → or_exist m w ≡ (ok a, v)
unfolding or_exist
or_exist_ok m w v a e = ap (λ r. or_exist (λ _. r) w) e

or_exist_err :
    {A : Type 0} (m : Action A) (w v : World) (e : Error)
    → m w ≡ (err e, v)
    → or_exist m w ≡ or_exist (λ _. (err e, v)) w
unfolding or_exist
or_exist_err m w v e h = ap (λ r. or_exist (λ _. r) w) h

module _ (env : Env) (ph : PasswordHasher) (delivers : Delivers env) (name : String)
    (password : Bytes) (w : World) where
  module _ (u : UserRow) (keys : HasDistinctKeys (arrived env w).users)
      (known : find_username name (arrived env w).users ≡ some u) where
    -- Where every request is delivered and ids and usernames are distinct, AuthenticatePassword
    -- returns the id of the user that has the name, if the hasher verifies the password against
    -- that user's hash.
    pub authenticate_password_right :
        ph.verify password u.password_hash ≡ ok tt
        → (authenticate_password env ph name password w).0 ≡ ok (record { user_id = u.id })
    unfolding authenticate_password check_password not_match_as_invalid wrap_result
    authenticate_password_right right =
        rw
          (authenticate_password, get_user_by_username_done env name w u delivers keys known, right)
          refl

    -- Where every request is delivered and ids and usernames are distinct, AuthenticatePassword
    -- fails with ErrInvalidUsernameOrPassword if the hasher finds that the password does not match
    -- the hash of the user that has the name.
    pub authenticate_password_wrong :
        (e : Error)
        → ph.verify password u.password_hash ≡ err e
        → errors_is e password_not_match ≡ true
        → (authenticate_password env ph name password w).0
          ≡ err (wrap "auth.PasswordAuthenticator" (sentinel invalid_username_or_password))
    unfolding authenticate_password check_password not_match_as_invalid wrap_result
    authenticate_password_wrong e wrong is =
        rw
          (
            authenticate_password,
            get_user_by_username_done env name w u delivers keys known,
            wrong,
            is,
          )
          refl

  create_user_data_done :
      (v : World) (h : Bytes)
      → any (λ u. u.id == env.uuid v.tick 0) (arrived env v).users ≡ false
      → any (λ u. str_eq u.username name) (arrived env v).users ≡ false
      → (t : Tables) × (create_user_data env pool (params_of name h) v ≡ (
        ok (user_of (new_user_row (params_of name h) (env.uuid v.tick 0))),
        closed t (v.tick + 1),
      ))
  unfolding create_user_data insert_user in_integer ge_0 defaults collect_exactly_one_row
      row_to_user
  create_user_data_done v h fresh free =
      let row = new_user_row (params_of name h) (env.uuid v.tick 0) in
      let t : Tables = record (arrived env v) { users = row ∷ (arrived env v).users } in
      let scan = λ (rows : List UserRow). lift (collect_exactly_one_row row_to_user rows) in
      (
        t,
        or_exist_ok (query env pool (insert_user 0 (params_of name h)) >>= scan) v
            (closed t (v.tick + 1)) (user_of row)
            (pool_scan env delivers (insert_user 0 (params_of name h))
              (collect_exactly_one_row row_to_user) v (row ∷ []) t (user_of row)
              (rw (fresh, free) refl) refl),
      )

  create_user_done :
      (v : World) (h : Bytes)
      → ph.hash v.tick password ≡ ok h
      → any (λ u. u.id == env.uuid v.tick 0) (arrived env v).users ≡ false
      → any (λ u. str_eq u.username name) (arrived env v).users ≡ false
      → (t : Tables) × (create_user env ph pool name password v ≡ (
        ok (user_of (new_user_row (params_of name h) (env.uuid v.tick 0))),
        closed t (v.tick + 1),
      ))
  unfolding create_user
  create_user_done v h hashed fresh free =
      let (t, made) = create_user_data_done v h fresh free in
      let create = λ (h : Bytes). create_user_data env pool (params_of name h) in
      let get_hash = λ (w : World). lift (ph.hash w.tick password) w in
      let to_hash : get_hash v ≡ (ok h, v) = ap (λ r. (r, v)) hashed in
      (
        t,
        wrapped_ok "user.Creator" (get_hash >>= create) _ v (closed t (v.tick + 1))
            (bind_ok get_hash create h v v to_hash made),
      )

  -- Where every request is delivered, AuthenticatePassword returns the id of a new user if nobody
  -- has the name at the lookup, the hasher returns a hash of the password, and at the second
  -- request, after what other clients did in between, nobody has the name or the new id.
  pub authenticate_password_new :
      (h : Bytes)
      → find_username name (arrived env w).users ≡ none
      → ph.hash (w.tick + 1) password ≡ ok h
      → any (λ u. u.id == env.uuid (w.tick + 1) 0) (env.arrive (w.tick + 1) (arrived env w)).users
        ≡ false
      → any (λ u. str_eq u.username name) (env.arrive (w.tick + 1) (arrived env w)).users ≡ false
      → (authenticate_password env ph name password w).0
        ≡ ok (record { user_id = env.uuid (w.tick + 1) 0 })
  unfolding authenticate_password register create_or_get errors_is wrap_result
  authenticate_password_new h absent hashed fresh free =
      let (t, made) = create_user_done (closed (arrived env w) (w.tick + 1)) h hashed fresh free in
      rw
        (
          authenticate_password,
          get_user_by_username_absent env name w delivers absent,
          register,
          create_or_get,
          made,
        )
        refl

  -- An insertion that finds the username taken.
  create_user_data_taken :
      (v : World) (h : Bytes)
      → any (λ u. u.id == env.uuid v.tick 0) (arrived env v).users ≡ false
      → any (λ u. str_eq u.username name) (arrived env v).users ≡ true
      → create_user_data env pool (params_of name h) v
        ≡ (err (sentinel user_exist), closed (arrived env v) (v.tick + 1))
  unfolding create_user_data insert_user in_integer ge_0 defaults or_exist is_constraint_pg_error
      errors_as_pg
  create_user_data_taken v h fresh taken =
      let scan = λ (rows : List UserRow). lift (collect_exactly_one_row row_to_user rows) in
      or_exist_err (query env pool (insert_user 0 (params_of name h)) >>= scan) v
        (closed (arrived env v) (v.tick + 1)) (pg_error unique_violation "users_username_idx")
        (pool_refused env delivers (insert_user 0 (params_of name h)) scan v
          (pg_error unique_violation "users_username_idx") (rw (fresh, taken) refl))

  create_user_taken :
      (v : World) (h : Bytes)
      → ph.hash v.tick password ≡ ok h
      → any (λ u. u.id == env.uuid v.tick 0) (arrived env v).users ≡ false
      → any (λ u. str_eq u.username name) (arrived env v).users ≡ true
      → create_user env ph pool name password v
        ≡ (err (wrap "user.Creator" (sentinel user_exist)), closed (arrived env v) (v.tick + 1))
  unfolding create_user
  create_user_taken v h hashed fresh taken =
      let create = λ (h : Bytes). create_user_data env pool (params_of name h) in
      let get_hash = λ (w : World). lift (ph.hash w.tick password) w in
      let to_hash : get_hash v ≡ (ok h, v) = ap (λ r. (r, v)) hashed in
      wrapped_err "user.Creator" (get_hash >>= create) (sentinel user_exist) v
        (closed (arrived env v) (v.tick + 1))
        (bind_ok get_hash create h v v to_hash (create_user_data_taken v h fresh taken))

  -- the tables at the second request, after what other clients did in between
  abbrev pub at_creation : Tables
  at_creation = env.arrive (w.tick + 1) (arrived env w)

  -- Where every request is delivered, AuthenticatePassword returns the id of a user that another
  -- client has registered in the meantime, whatever the hasher would say of the password: if nobody
  -- has the name at the lookup, the hasher returns a hash of the password, the name is taken and
  -- the new id is not at the insertion, after what other clients did in between, and at the last
  -- lookup ids and usernames are distinct and the user has the name.
  pub authenticate_password_overtaken :
      (h : Bytes) (u : UserRow)
      → find_username name (arrived env w).users ≡ none
      → ph.hash (w.tick + 1) password ≡ ok h
      → any (λ u. u.id == env.uuid (w.tick + 1) 0) at_creation.users ≡ false
      → any (λ u. str_eq u.username name) at_creation.users ≡ true
      → HasDistinctKeys (env.arrive (w.tick + 1 + 1) at_creation).users
      → find_username name (env.arrive (w.tick + 1 + 1) at_creation).users ≡ some u
      → (authenticate_password env ph name password w).0 ≡ ok (record { user_id = u.id })
  unfolding authenticate_password register create_or_get errors_is wrap_result
  authenticate_password_overtaken h u absent hashed fresh taken keys known =
      let v = closed (arrived env w) (w.tick + 1) in
      let v' = closed at_creation (w.tick + 1 + 1) in
      rw
        (
          authenticate_password,
          get_user_by_username_absent env name w delivers absent,
          register,
          create_or_get,
          create_user_taken v h hashed fresh taken,
          get_user_by_username_done env name v' u delivers keys known,
        )
        refl
