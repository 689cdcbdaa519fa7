-- ===== src/Users/Creation.antt =====
-- The user that `CreateUser` returns.
use merch.Base.{String, ◌≡◌, refl, subst, List, [], ◌∷◌}
use merch.Go.Errors.{Result, ok, err, panic}
use merch.Postgres.Schema.{Bytes, UserRow}
use merch.Postgres.Session.{Env, World, Action, pool, query, defaults, arrived, lift, ◌>>=◌}
use merch.Postgres.Rows.{collect_exactly_one_row}
use merch.Postgres.Splitting.{Splits, Anything, Splits-then, Splits-wrapped, query-Splits}
use merch.Users.Model.{User, user_of, row_to_user}
use merch.Users.Hashing.{PasswordHasher}
use merch.Users.Creator.{
  DataCreatorCreateUserParams, default_balance, new_user_row, insert_user, or_exist,
  create_user_data, create_user,
}
use merch.Users.Registration.{IsInserted, insert_user-IsInserted}

abbrev pub params_of : String → Bytes → DataCreatorCreateUserParams
params_of username hash = record {
  username = username;
  password_hash = hash;
  balance = default_balance;
}

-- The tables have the new row, with a hash of the password.
pub record IsCreated (env : Env) (ph : PasswordHasher) (username : String) (password : Bytes)
    (w : World) (u : User) (v : World) : Type 0 where
  pub hash : Bytes
  pub hashed : ph.hash w.tick password ≡ ok hash
  pub inserted :
      IsInserted 0
        (params_of username hash)
        (defaults env w.tick)
        (arrived env w)
        (new_user_row (params_of username hash) ((defaults env w.tick).ids 0) ∷ [])
        v.tables
  pub user : u ≡ user_of (new_user_row (params_of username hash) ((defaults env w.tick).ids 0))

or_exist-Splits :
    {A : Type 0} (Q : A → World → Type 0) (m : Action A) (w : World)
    → Splits Q Anything (m w)
    → Splits Q Anything (or_exist m w)
unfolding or_exist
or_exist-Splits {A} Q m w h = go (m w) h
  where
    go : (r : Result A × World) → Splits Q Anything r → Splits Q Anything (or_exist (λ _. r) w)
    go (ok a, v) k = k
    go (err e, v) k = tt
    go (panic, v) k = tt

module _ (env : Env) (ph : PasswordHasher) (username : String) (password : Bytes) (w : World) where
  data-Splits :
      (hash : Bytes)
      → ph.hash w.tick password ≡ ok hash
      → Splits
          (IsCreated env ph username password w)
          Anything
          (create_user_data env pool (params_of username hash) w)
  unfolding create_user_data collect_exactly_one_row row_to_user
  data-Splits hash e =
      let p = params_of username hash in
      let scan = λ (rows : List UserRow). lift (collect_exactly_one_row row_to_user rows) in
      let Inserted = IsInserted 0 p (defaults env w.tick) (arrived env w) in
      or_exist-Splits (IsCreated env ph username password w)
        (query env pool (insert_user 0 p) >>= scan) w
        (Splits-then (λ rows v. Inserted rows v.tables) (IsCreated env ph username password w)
          Anything (query env pool (insert_user 0 p)) scan w
          (query-Splits env (insert_user 0 p) Inserted w
            (insert_user-IsInserted 0 p (defaults env w.tick) (arrived env w)))
          (λ rows v h. go rows v h))
    where
      go :
          (rows : List UserRow) (v : World)
          → IsInserted 0
              (params_of username hash)
              (defaults env w.tick)
              (arrived env w)
              rows
              v.tables
          → Splits
              (IsCreated env ph username password w)
              Anything
              (collect_exactly_one_row row_to_user rows, v)
      go rows v h =
          let row = new_user_row (params_of username hash) ((defaults env w.tick).ids 0) in
          let created : IsCreated env ph username password w (user_of row) v = record {
            hash = hash;
            hashed = e;
            inserted =
                subst
                  (λ rs.
                    IsInserted 0 (params_of username hash) (defaults env w.tick) (arrived env w) rs
                      v.tables)
                  h.returned h;
            user = refl;
          } in
          rw (h.returned, collect_exactly_one_row) created

  -- If Creator.CreateUser returns a user, then that user's row has been added to the tables: it has
  -- the name, the default balance, a hash of the password that the hasher returned, and an id and a
  -- name that no row had.
  pub create_user-Splits :
      Splits
        (IsCreated env ph username password w)
        Anything
        (create_user env ph pool username password w)
  unfolding create_user
  create_user-Splits =
      let hash_password : Action Bytes = λ v. lift (ph.hash v.tick password) v in
      let create = λ (hash : Bytes). create_user_data env pool (params_of username hash) in
      Splits-wrapped "user.Creator" (IsCreated env ph username password w)
        (hash_password >>= create) w
        (Splits-then (λ hash v. (v ≡ w) × (ph.hash w.tick password ≡ ok hash))
          (IsCreated env ph username password w) Anything hash_password create w
          (go (ph.hash w.tick password) refl) (λ hash v (same, e). rw same (data-Splits hash e)))
    where
      go :
          (r : Result Bytes)
          → ph.hash w.tick password ≡ r
          → Splits (λ hash v. (v ≡ w) × (ph.hash w.tick password ≡ ok hash)) Anything (r, w)
      go (ok h) e = (refl, e)
      go (err x) e = tt
      go panic e = tt
