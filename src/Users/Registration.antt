-- ===== src/Users/Registration.antt =====
-- What creating a user does to the tables.
use merch.Base.{
  ℕ, String, ◌≡◌, refl, false, none, List, [], ◌∷◌, arith, ◌==◌, str_eq, Bool-cases, inl, inr,
}
use merch.Base.Lists.{any}
use merch.Go.Errors.{Result, ok, err, panic}
use merch.Postgres.Schema.{Uuid, Bytes, UserRow, Tables, in_integer, ge_0}
use merch.Postgres.Session.{
  Env, World, Action, Defaults, Outcome, done, refused, pool, defaults, lift,
}
use merch.Postgres.Rows.{collect_exactly_one_row}
use merch.Postgres.Pool.{OthersKeep}
use merch.Postgres.Keeping.{Keeps, OutcomeKeeps, OutcomeHas, query_then-Keeps, Keeps-then}
use merch.Users.Model.{row_to_user}
use merch.Users.Hashing.{PasswordHasher}
use merch.Users.Creator.{
  DataCreatorCreateUserParams, default_balance, new_user_row, insert_user, or_exist,
  create_user_data, create_user,
}
use merch.Ledger.Accounts.{find, find_username}
use merch.Ledger.Invariant.{IsConsistent}
use merch.Ledger.Change.{registration, registered}
use merch.Ledger.Preservation.{Change-IsConsistent}

any-find : (id : Uuid) (us : List UserRow) → any (λ u. u.id == id) us ≡ false → find id us ≡ none
unfolding find
any-find id [] e = refl
any-find id (u ∷ us) e = ground (arith, any-find id us)

any-find_username :
    (name : String) (us : List UserRow)
    → any (λ u. str_eq u.username name) us ≡ false
    → find_username name us ≡ none
unfolding find_username
any-find_username name [] e = refl
any-find_username name (u ∷ us) e = ground (arith, any-find_username name us)

-- A row that is inserted has a new id and a new username, and is the one that is returned.
pub record IsInserted (n : ℕ) (p : DataCreatorCreateUserParams) (d : Defaults) (t : Tables)
    (rows : List UserRow) (t' : Tables) : Type 0 where
  pub returned : rows ≡ new_user_row p (d.ids n) ∷ []
  pub fresh : find (d.ids n) t.users ≡ none
  pub free : find_username p.username t.users ≡ none
  pub written : t' ≡ registered (new_user_row p (d.ids n)) t

pub insert_user-IsInserted :
    (n : ℕ) (p : DataCreatorCreateUserParams) (d : Defaults) (t : Tables)
    → OutcomeHas (IsInserted n p d t) (insert_user n p d t)
unfolding insert_user
insert_user-IsInserted n p d t = elim (Bool-cases (in_integer p.balance)) [
  | inr out ↦ rw (out, insert_user) tt
  | inl fits ↦ elim (Bool-cases (ge_0 p.balance)) [
    | inr negative ↦ rw (fits, insert_user, negative) tt
    | inl positive ↦ elim (Bool-cases (any (λ u. u.id == d.ids n) t.users)) [
      | inl used ↦ rw (fits, insert_user, positive, used) tt
      | inr fresh ↦ elim (Bool-cases (any (λ u. str_eq u.username p.username) t.users)) [
        | inl taken ↦ rw (fits, insert_user, positive, fresh, taken) tt
        | inr free ↦
            rw (fits, insert_user, positive, fresh, free)
              (record {
                returned = refl;
                fresh = any-find (d.ids n) t.users fresh;
                free = any-find_username p.username t.users free;
                written = refl;
              })
      ]
    ]
  ]
]

insert_user-Keeps :
    (n : ℕ) (p : DataCreatorCreateUserParams) (d : Defaults) (t : Tables)
    → p.balance ≡ default_balance
    → IsConsistent t
    → OutcomeKeeps IsConsistent (insert_user n p d t)
insert_user-Keeps n p d t e c = go (insert_user n p d t) (insert_user-IsInserted n p d t)
  where
    go :
        (o : Outcome (List UserRow))
        → OutcomeHas (IsInserted n p d t) o
        → OutcomeKeeps IsConsistent o
    go (done rows t') h =
        Change-IsConsistent (registration (new_user_row p (d.ids n)) e h.fresh h.free h.written) c
    go (refused x) h = tt

or_exist-Keeps :
    {A : Type 0} (m : Action A) → Keeps IsConsistent m → Keeps IsConsistent (or_exist m)
unfolding or_exist
or_exist-Keeps m h w c = go (m w) (h w c)
  where
    go :
        {A : Type 0} (r : Result A × World)
        → IsConsistent r.1.tables
        → IsConsistent (or_exist (λ _. r) w).1.tables
    go (ok a, v) k = k
    go (err e, v) k = k
    go (panic, v) k = k

create_user_data-Keeps :
    (env : Env) (p : DataCreatorCreateUserParams)
    → p.balance ≡ default_balance
    → OthersKeep IsConsistent env
    → Keeps IsConsistent (create_user_data env pool p)
unfolding create_user_data
create_user_data-Keeps env p e keep = or_exist-Keeps _ (
    query_then-Keeps IsConsistent env (insert_user 0 p) (collect_exactly_one_row row_to_user) keep
      (λ n t c. insert_user-Keeps 0 p (defaults env n) t e c))

-- Creator.CreateUser keeps the tables consistent, whatever comes of it.
pub create_user-Keeps :
    (env : Env) (ph : PasswordHasher) (username : String) (password : Bytes)
    → OthersKeep IsConsistent env
    → Keeps IsConsistent (create_user env ph pool username password)
unfolding create_user
create_user-Keeps env ph username password keep =
    let create = λ (h : Bytes).
      create_user_data env pool
        (record { username = username; password_hash = h; balance = default_balance }) in
    Keeps-then IsConsistent (λ w. lift (ph.hash w.tick password) w) create (λ _ c. c)
      (λ h. create_user_data-Keeps env _ refl keep)
