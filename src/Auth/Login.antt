-- ===== src/Auth/Login.antt =====
-- Who `AuthenticatePassword` lets in.
use merch.Base.{String, ◌≡◌, refl, true, none, if◌then◌else◌, Bool-cases, inl, inr}
use merch.Go.Errors.{
  Error, Result, ok, err, panic, errors_is, user_not_exist, user_exist, password_not_match,
}
use merch.Postgres.Schema.{Bytes}
use merch.Postgres.Session.{Env, World, Action, pool, arrived, pure, fail, case_of, ◌>>=◌}
use merch.Postgres.Pool.{after}
use merch.Postgres.Triples.{Ends}
use merch.Postgres.Splitting.{
  Splits, Anything, Ends-Splits, Splits-then, Splits-case_of, Splits-wrapped,
}
use merch.Users.Model.{User}
use merch.Users.Hashing.{PasswordHasher}
use merch.Users.Getter.{get_user_by_username}
use merch.Users.Creator.{create_user}
use merch.Users.Creation.{IsCreated, create_user-Splits}
use merch.Users.Lookup.{
  IsNamed, LookedUp, NotLookedUp, get_user_by_username-Ends, get_user_by_username-LookedUp,
}
use merch.Ledger.Accounts.{find_username}
use merch.Auth.Password.{
  Data, data_of, not_match_as_invalid, check_password, create_or_get, register,
  authenticate_password,
}

module _ (env : Env) (ph : PasswordHasher) (username : String) (password : Bytes) where
  -- How a login that started at `w` can have come about.
  pub data IsLogin (w : World) (d : Data) (v : World) : Type 0 where
    -- at the lookup a user had the name, and the password matches this user's hash
    verified :
        (u : User)
        → v ≡ after env w
        → IsNamed username (arrived env w).users u
        → ph.verify password u.password_hash ≡ ok tt
        → d ≡ data_of u
        → IsLogin w d v
    -- at the lookup nobody had the name, and the user has been created
    registered :
        (u : User)
        → find_username username (arrived env w).users ≡ none
        → IsCreated env ph username password (after env w) u v
        → d ≡ data_of u
        → IsLogin w d v
    -- at the lookup nobody had the name, the creation ended with ErrExist, and then a user had it
    overtaken :
        (e : Error) (v' : World) (u : User)
        → find_username username (arrived env w).users ≡ none
        → create_user env ph pool username password (after env w) ≡ (err e, v')
        → errors_is e user_exist ≡ true
        → v.tables ≡ arrived env v'
        → IsNamed username (arrived env v').users u
        → d ≡ data_of u
        → IsLogin w d v

  module _ (w : World) where
    abbrev start : World
    start = after env w

    verify_lem :
        (u : User)
        → IsNamed username (arrived env w).users u
        → Splits (IsLogin w) Anything (check_password env ph password u start)
    unfolding check_password not_match_as_invalid
    verify_lem u n = go (ph.verify password u.password_hash) refl
      where
        go :
            (r : Result Unit)
            → ph.verify password u.password_hash ≡ r
            → Splits
                (IsLogin w)
                Anything
                (((λ (v' : World). (not_match_as_invalid r, v')) >>= λ _. pure (data_of u)) start)
        go (ok x) e = verified u refl n e refl
        go (err x) e = elim (Bool-cases (errors_is x password_not_match)) [
          | inl mismatch ↦ rw (mismatch, not_match_as_invalid) tt
          | inr other ↦ rw (other, not_match_as_invalid) tt
        ]
        go panic e = tt

    -- what a new session or a lost race leaves, before the data is made of it
    abbrev IsRegistered : User → World → Type 0
    IsRegistered u v = IsLogin w (data_of u) v

    -- how the creation ended
    abbrev Created : User → World → Type 0
    Created u v = IsCreated env ph username password start u v

    abbrev NotCreated : Error → World → Type 0
    NotCreated e v = create_user env ph pool username password start ≡ (err e, v)

    create_user-Split : Splits Created NotCreated (create_user env ph pool username password start)
    create_user-Split =
        go (create_user env ph pool username password start) refl
          (create_user-Splits env ph username password start)
      where
        go :
            (r : Result User × World)
            → create_user env ph pool username password start ≡ r
            → Splits Created Anything r
            → Splits Created NotCreated r
        go (ok u, v) e h = h
        go (err x, v) e h = e
        go (panic, v) e h = tt

    create_or_get-Splits :
        find_username username (arrived env w).users ≡ none
        → Splits IsRegistered Anything (create_or_get env ph username password start)
    unfolding create_or_get
    create_or_get-Splits absent =
        let get : Action User = get_user_by_username env pool username in
        let otherwise = λ (e : Error). if errors_is e user_exist then get else fail e in
        Splits-case_of Created NotCreated IsRegistered Anything
          (create_user env ph pool username password) pure otherwise start create_user-Split
          (λ u v c. registered u absent c refl)
          (λ e v failed. elim (Bool-cases (errors_is e user_exist)) [
            | inl taken ↦ rw taken (overtaken_by e v failed taken)
            | inr other ↦ rw other tt
          ])
      where
        overtaken_by :
            (e : Error) (v : World)
            → NotCreated e v
            → errors_is e user_exist ≡ true
            → Splits IsRegistered Anything (get_user_by_username env pool username v)
        overtaken_by e v failed taken =
            go (get_user_by_username env pool username v) (get_user_by_username-Ends env username v)
          where
            go :
                (r : Result User × World)
                → Ends
                    (λ u x. (x.tables ≡ arrived env v) × IsNamed username (arrived env v).users u)
                    (λ _ x. x.tables ≡ arrived env v)
                    r
                → Splits IsRegistered Anything r
            go (ok u, x) (same, n) = overtaken e v u absent failed taken same n refl
            go (err y, x) h = tt
            go (panic, x) h = tt

    register-Splits :
        find_username username (arrived env w).users ≡ none
        → Splits (IsLogin w) Anything (register env ph username password start)
    unfolding register
    register-Splits absent =
        Splits-then IsRegistered (IsLogin w) Anything (create_or_get env ph username password)
          (λ u. pure (data_of u)) start (create_or_get-Splits absent) (λ _ _ h. h)

    -- If AuthenticatePassword returns the data of a user, then one of three things has happened: in
    -- the tables of the first lookup the user had the name, and the hasher verified the password
    -- against this user's hash; or nobody had the name in them, and the user is new, with a fresh
    -- id, a name that was free, a hash of the password and the default balance; or nobody had the
    -- name in them, CreateUser ended with ErrExist, and the user had the name in the tables of the
    -- second lookup, while no password was verified.
    pub authenticate_password-IsLogin :
        Splits (IsLogin w) Anything (authenticate_password env ph username password w)
    unfolding authenticate_password
    authenticate_password-IsLogin =
        let get : Action User = get_user_by_username env pool username in
        let otherwise = λ (e : Error).
          if errors_is e user_not_exist then register env ph username password else fail e in
        Splits-wrapped "auth.PasswordAuthenticator" (IsLogin w)
          (case_of get (check_password env ph password) otherwise) w
          (Splits-case_of (LookedUp env username w) (NotLookedUp env username w) (IsLogin w)
            Anything get (check_password env ph password) otherwise w
            (Ends-Splits _ _ (get w) (get_user_by_username-LookedUp env username w))
            (λ u v (same, n). rw same (verify_lem u n))
            (λ e v (same, missing). elim (Bool-cases (errors_is e user_not_exist)) [
              | inl is ↦ rw (is, same) (register-Splits (missing is))
              | inr other ↦ rw other tt
            ]))
