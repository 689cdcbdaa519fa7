-- ===== src/Setup/Users/Generation.antt =====
-- The users of a load test can log in.
use merch.Base.{ℕ, suc, ◌≡◌, refl, sym, ap, ◌∙◌, subst, some, List, [], ◌∷◌, map, arith}
use merch.Base.Int.{pos}
use merch.Base.Lists.{All, length}
use merch.Base.Reorderings.{
  IsReordered, next as then_next, map-IsReordered, All-IsReordered, length-IsReordered,
}
use merch.Go.Errors.{Error, Result, ok, err, panic}
use merch.Postgres.Schema.{Bytes, UserRow, Tables}
use merch.Postgres.Session.{Env, World, arrived, lift, pure, ◌>>=◌}
use merch.Postgres.Triples.{Ends}
use merch.Postgres.Splitting.{Splits, Anything, Splits-then, Splits-wrapped}
use merch.Users.Model.{User, user_of}
use merch.Users.Argon2.{Cryptography, hash, verify, default_argon2_id_params}
use merch.Users.Argon2.Format.{AreWords}
use merch.Users.Argon2.Verification.{verify-hash}
use merch.Users.Creator.{DataCreatorCreateUserParams, RowOrder, default_balance, create_users_data}
use merch.Users.Batch.Rows.{IsBatch}
use merch.Users.Batch.{create_users_data-Ends}
use merch.Ledger.Accounts.{find}
use merch.Setup.Users.{
  SetupUser, default_password, create_user_params, make_params, setup_user, generate_users,
}
use merch.Setup.Users.Rows.{
  IsStored, IsAskedFor, Batch-IsStored, usernames, params-IsAskedFor, length-usernames,
}

default-AreWords : AreWords default_argon2_id_params
default-AreWords = record {
  memory = omega arith;
  time = omega arith;
  parallelism = omega arith;
  salt_len = omega arith;
  hash_len = omega arith;
}

Splits-weaken :
    {A : Type 0} (Q : A → World → Type 0) (E : Error → World → Type 0) (r : Result A × World)
    → Ends Q E r
    → Splits Q Anything r
Splits-weaken Q E (ok a, v) h = h
Splits-weaken Q E (err x, v) h = tt
Splits-weaken Q E (panic, v) h = tt

module _ (c : Cryptography) where
  -- The tables have a user of the list under its id and name, with the default balance, and its
  -- password passes the check of the login.
  pub record CanLogIn (t : Tables) (u : SetupUser) : Type 0 where
    pub row : UserRow
    pub found : find u.id t.users ≡ some row
    pub stored_username : row.username ≡ u.username
    pub balance : u.balance ≡ default_balance
    pub stored_balance : row.balance ≡ default_balance
    pub verifies : verify c u.password row.password_hash ≡ ok tt

  IsStored-CanLogIn :
      (h : Bytes) (t : Tables) (rows : List UserRow)
      → verify c default_password h ≡ ok tt
      → All (IsStored h t) rows
      → All (CanLogIn t) (map setup_user (map user_of rows))
  IsStored-CanLogIn h t [] e a = tt
  IsStored-CanLogIn h t (r ∷ rows) e a =
      let first = a.0 in
      (
        record {
          row = r;
          found = first.found;
          stored_username = refl;
          balance = first.balance;
          stored_balance = first.balance;
          verifies = ap (verify c default_password) first.hash ∙ e;
        },
        IsStored-CanLogIn h t rows e a.1,
      )

  names_lem :
      (rows : List UserRow)
      → map (λ (u : SetupUser). u.username) (map setup_user (map user_of rows))
        ≡ map (λ (r : UserRow). r.username) rows
  names_lem [] = refl
  names_lem (r ∷ rows) = ap (λ us. r.username ∷ us) (names_lem rows)

  -- So many users; the names are those from the first to the last number, in some order.
  pub record AreGenerated (n : ℕ) (us : List SetupUser) (v : World) : Type 0 where
    pub can_log_in : All (CanLogIn v.tables) us
    pub named : IsReordered (usernames 0 n) (map (λ u. u.username) us)
    pub count : length us ≡ n

  length_names : (us : List SetupUser) → length (map (λ (u : SetupUser). u.username) us) ≡ length us
  length_names [] = refl
  length_names (u ∷ us) = ap suc (length_names us)

  -- The names pass through the order of the scan and that of the answer.
  batch_names :
      (h : Bytes) (n : ℕ) (t : Tables) (us : List User) (v : World)
      → IsBatch (create_user_params h 0 n) t us v.tables
      → IsReordered (usernames 0 n) (map (λ u. u.username) (map setup_user us))
  batch_names h n t us v b =
      let (asked, all_names) = params-IsAskedFor h 0 n in
      let (_, names) =
        Batch-IsStored h b.inserted (All-IsReordered (IsAskedFor h) b.all_scanned asked) in
      let names_of = map (λ (r : UserRow). r.username) in
      let scanned =
        map-IsReordered (λ (p : DataCreatorCreateUserParams). p.username) b.all_scanned in
      let answered = map-IsReordered (λ (r : UserRow). r.username) b.all_returned in
      let inserted : IsReordered (usernames 0 n) (names_of b.rows) =
        subst (IsReordered (usernames 0 n)) (sym names) (
          subst
            (λ xs. IsReordered xs (map (λ (p : DataCreatorCreateUserParams). p.username) b.scanned))
            all_names scanned) in
      rw b.users (
        subst (IsReordered (usernames 0 n)) (sym (names_lem b.returned))
          (then_next inserted answered))

  IsBatch-AreGenerated :
      (h : Bytes) (n : ℕ) (t : Tables) (us : List User) (v : World)
      → verify c default_password h ≡ ok tt
      → IsBatch (create_user_params h 0 n) t us v.tables
      → AreGenerated n (map setup_user us) v
  IsBatch-AreGenerated h n t us v e b =
      let asked = (params-IsAskedFor h 0 n).0 in
      let (stored, _) =
        Batch-IsStored h b.inserted (All-IsReordered (IsAskedFor h) b.all_scanned asked) in
      let returned = All-IsReordered (IsStored h v.tables) b.all_returned stored in
      let names = batch_names h n t us v b in
      record {
        can_log_in = rw b.users (IsStored-CanLogIn h v.tables b.returned e returned);
        named = names;
        count =
            sym (length_names (map setup_user us))
            ∙ sym (length-IsReordered names)
            ∙ length-usernames 0 n;
      }

  abbrev Verifies : Bytes → World → Type 0
  Verifies h _ = verify c default_password h ≡ ok tt

  hashed :
      (n : ℕ) (w : World)
      → Splits Verifies Anything (hash c default_argon2_id_params n default_password, w)
  hashed n w = go (hash c default_argon2_id_params n default_password) refl
    where
      go :
          (r : Result Bytes)
          → hash c default_argon2_id_params n default_password ≡ r
          → Splits Verifies Anything (r, w)
      go (ok h) e = verify-hash c default_argon2_id_params n default_password h default-AreWords e
      go (err x) e = tt
      go panic e = tt

  -- from the loop on
  created :
      (env : Env) (order : RowOrder) (n : ℕ) (h : Bytes) (v : World)
      → verify c default_password h ≡ ok tt
      → Splits (AreGenerated n) Anything (
          (create_users_data env order (create_user_params h 0 n) >>= λ us.
          pure (map setup_user us))
            v)
  created env order n h v e =
      let ps = create_user_params h 0 n in
      Splits-then (λ us u. IsBatch ps (arrived env v) us u.tables) (AreGenerated n) Anything
        (create_users_data env order ps) (λ us. pure (map setup_user us)) v
        (Splits-weaken (λ us u. IsBatch ps (arrived env v) us u.tables) _
          (create_users_data env order ps v) (create_users_data-Ends env order ps v))
        (λ us u b. IsBatch-AreGenerated h n (arrived env v) us u e b)

  -- If GenerateUsers returns for a count n that is not negative, then it returns n users; their
  -- names are "u" and the decimals from 0 to n - 1, each once, in some order, and of each user the
  -- tables have the row under its id, with its name, the default balance and a hash against which
  -- its password verifies.
  pub generate_users-Splits :
      (env : Env) (order : RowOrder) (n : ℕ) (w : World)
      → Splits (AreGenerated n) Anything (generate_users c env order (pos n) w)
  unfolding generate_users make_params
  generate_users-Splits env order n w =
      let get_hash =
        λ (w : World). lift (hash c default_argon2_id_params w.tick default_password) w in
      let create = λ (h : Bytes).
        create_users_data env order (create_user_params h 0 n) >>= λ us. pure (map setup_user us) in
      Splits-wrapped "GenerateUsers" (AreGenerated n) (get_hash >>= create) w (
        Splits-then Verifies (AreGenerated n) Anything get_hash create w (hashed w.tick w)
          (λ h v e. created env order n h v e))
