-- ===== src/Users/Batch.antt =====
-- What `DataCreator.CreateUsers` does to the tables.
pub mod Rows
use merch.Base.{
  ℕ, ◌+◌, ◌≡◌, refl, sym, ap, ◌∙◌, subst, ◌⊎◌, inl, inr, none, some, List, [], ◌∷◌, map, Bool, true,
  false, if◌then◌else◌,
}
use merch.Base.Lists.{All, any}
use merch.Go.Errors.{Error, numeric_value_out_of_range, pg_error, Result, ok, err, panic}
use merch.Postgres.Schema.{UserRow, Tables, in_integer}
use merch.Postgres.Session.{
  Env, World, Action, Defaults, Outcome, done, refused, tx, query, begin, commit, arrived, defaults,
  lift, pure, deferring_rollback, ◌>>=◌, ◌>>◌,
}
use merch.Postgres.Rows.{collect_rows}
use merch.Postgres.Keeping.{OutcomeHas}
use merch.Postgres.Triples.{Ends, Ends-then, Ends-tables}
use merch.Postgres.Transactions.{
  InTx, Kept, Answered, Published, AllOrNothing, query_tx-Ends, query_then-Ends, commit-Ends,
  done_parts,
}
use merch.Postgres.Pool.{OthersKeep, TablesAre, begin-Ends, deferring_rollback-Ends}
use merch.Users.Model.{User, user_of, row_to_user}
use merch.Users.Creator.{
  DataCreatorCreateUserParams, default_balance, RowOrder, new_user_row, insert_user, insert_users,
  and_rows, and_then, create_temp_users, copy_from, or_exist, create_users_data,
}
use merch.Users.Registration.{IsInserted, insert_user-IsInserted}
use merch.Ledger.Accounts.{find, find_username}
use merch.Ledger.Invariant.{IsConsistent}
use merch.Ledger.Change.{registration, registered}
use merch.Ledger.Preservation.{Change-IsConsistent}
use merch.Users.Selection.{collect_rows-row_to_user}
use merch.Users.Batch.Rows.{Batch, IsBatch, IsBatch-insert_users, IsBatch-IsConsistent}

module _ (env : Env) (order : RowOrder) (ps : List DataCreatorCreateUserParams) (t : Tables) where
  or_exist-Ends :
      {A : Type 0} (w : World) (R : A → World → Type 0) (m : Action A)
      → Ends R (Kept w) (m w)
      → Ends R (Kept w) (or_exist m w)
  unfolding or_exist
  or_exist-Ends {A} w R m h = go (m w) h
    where
      go : (r : Result A × World) → Ends R (Kept w) r → Ends R (Kept w) (or_exist (λ _. r) w)
      go (ok a, v) k = k
      go (err e, v) k = k
      go (panic, v) k = k

  insert_users-Ends :
      (w : World)
      → w.pending ≡ some t
      → Ends (InTx w (λ us t'. IsBatch ps t us t')) (Kept w) (
          or_exist
            ((λ v. query env tx (insert_users order v.tick ps) v) >>= λ rows.
              lift (collect_rows row_to_user rows))
            w)
  insert_users-Ends w p = or_exist-Ends w (InTx w (λ us t'. IsBatch ps t us t')) _ (
      query_then-Ends env (insert_users order w.tick ps) (collect_rows row_to_user) w t
        (λ us t'. IsBatch ps t us t') p
        (λ rows t' e. rw (collect_rows-row_to_user rows) (
          subst (OutcomeHas (λ rows t'. IsBatch ps t (map user_of rows) t')) e
            (IsBatch-insert_users order w.tick ps (defaults env w.tick) t))))

copy_from_parts :
    (ps : List DataCreatorCreateUserParams) (d : Defaults) (t : Tables)
    (rows : List DataCreatorCreateUserParams) (t' : Tables)
    → copy_from ps d t ≡ done rows t'
    → (rows ≡ ps) × (t' ≡ t)
unfolding copy_from
copy_from_parts ps d t rows t' e =
    go (any (λ (p : DataCreatorCreateUserParams). if in_integer p.balance then false else true) ps)
      e
  where
    go :
        (b : Bool)
        → (if b then refused (pg_error numeric_value_out_of_range "") else done ps t) ≡ done rows t'
        → (rows ≡ ps) × (t' ≡ t)
    go true h = cc
    go false h = done_parts ps rows t t' h

module _ (env : Env) (order : RowOrder) (ps : List DataCreatorCreateUserParams) (t : Tables) where
  abbrev Creates : List User → World → Type 0
  Creates us v = IsBatch ps t us v.tables

  abbrev CreatesOrNot : Error → World → Type 0
  CreatesOrNot _ v = (v.tables ≡ t) ⊎ ((us : List User) × IsBatch ps t us v.tables)

  -- The commit of the users that have been inserted.
  committed :
      (us : List User) (v : World) (t' : Tables)
      → v.tables ≡ t
      → v.pending ≡ some t'
      → IsBatch ps t us t'
      → Ends Creates CreatesOrNot ((commit env >> pure us) v)
  committed us v t' same p b =
      Ends-then (Published t') Creates (AllOrNothing v t') CreatesOrNot (commit env) (λ _. pure us)
        v (commit-Ends env v t' p)
        (λ _ u e. elim e [
          | inl kept ↦ inl (kept ∙ same)
          | inr all ↦ inr (us, subst (IsBatch ps t us) (sym all) b)
        ])
        (λ _ u e. subst (IsBatch ps t us) (sym e) b)

  abbrev insert_and_commit : List DataCreatorCreateUserParams → Action (List User)
  insert_and_commit temp_users = do
    users ← or_exist (do
      rows ← (λ w. query env tx (insert_users order w.tick temp_users) w)
      lift (collect_rows row_to_user rows))
    commit env
    pure users

  insert_and_commit-Ends :
      (v : World)
      → v.tables ≡ t
      → v.pending ≡ some t
      → Ends Creates CreatesOrNot (insert_and_commit ps v)
  insert_and_commit-Ends v same p =
      Ends-then (InTx v (λ us t'. IsBatch ps t us t')) Creates (Kept v) CreatesOrNot
        (or_exist (
          (λ w. query env tx (insert_users order w.tick ps) w) >>= λ rows.
          lift (collect_rows row_to_user rows)))
        (λ us. commit env >> pure us) v (insert_users-Ends env order ps t v p)
        (λ _ u kept. inl (kept ∙ same)) (λ us u h. committed us u h.1.0 (h.0 ∙ same) h.1.1 h.1.2)

  abbrev copy_and_insert : Action (List User)
  copy_and_insert = query env tx (copy_from ps) >>= insert_and_commit

  copy_and_insert-Ends :
      (v : World)
      → v.tables ≡ t
      → v.pending ≡ some t
      → Ends Creates CreatesOrNot (copy_and_insert v)
  copy_and_insert-Ends v same p =
      Ends-then (Answered env (copy_from ps) v t) Creates (Kept v) CreatesOrNot
        (query env tx (copy_from ps)) insert_and_commit v (query_tx-Ends env (copy_from ps) v t p)
        (λ _ u kept. inl (kept ∙ same))
        (λ rows u h.
          let (whole, kept) = copy_from_parts ps (defaults env v.tick) t rows h.1.0 h.1.2 in
          rw whole (insert_and_commit-Ends u (h.0 ∙ same) (h.1.1 ∙ ap some kept)))

  -- what runs between `Begin` and the deferred `Rollback`
  in_tx-Ends :
      (v : World)
      → v.tables ≡ t
      → v.pending ≡ some t
      → Ends Creates CreatesOrNot ((query env tx create_temp_users >> copy_and_insert) v)
  unfolding create_temp_users
  in_tx-Ends v same p =
      Ends-then (Answered env create_temp_users v t) Creates (Kept v) CreatesOrNot
        (query env tx create_temp_users) (λ _. copy_and_insert) v
        (query_tx-Ends env create_temp_users v t p) (λ _ u kept. inl (kept ∙ same))
        (λ x u h.
          let kept = done_parts tt x t h.1.0 h.1.2 in
          copy_and_insert-Ends u (h.0 ∙ same) (h.1.1 ∙ ap some kept.1))

-- CreateUsers on the pool does not panic, whatever order PostgreSQL scans and returns rows in. If
-- it returns, it has inserted into the tables, as other clients left them, one row for each of the
-- given users, taken in some order, each with a new id and a username that was free by then, and it
-- returns the users of these rows in some order; nothing else has changed. If it fails, it has
-- inserted none of them, or all.
pub create_users_data-Ends :
    (env : Env) (order : RowOrder) (ps : List DataCreatorCreateUserParams) (w : World)
    → Ends
        (λ us v. IsBatch ps (arrived env w) us v.tables)
        (λ _ v.
          (v.tables ≡ arrived env w) ⊎ ((us : List User) × IsBatch ps (arrived env w) us v.tables))
        (create_users_data env order ps w)
unfolding create_users_data
create_users_data-Ends env order ps w =
    let t = arrived env w in
    let body = query env tx create_temp_users >> copy_and_insert env order ps t in
    Ends-then (λ _ v. (v.tables ≡ t) × (v.pending ≡ some t)) (Creates env order ps t) (TablesAre t)
      (CreatesOrNot env order ps t) (begin env) (λ _. deferring_rollback body) w (begin-Ends env w)
      (λ _ v kept. inl kept)
      (λ _ v h.
        deferring_rollback-Ends (λ us t'. IsBatch ps t us t')
          (λ _ t'. (t' ≡ t) ⊎ ((us : List User) × IsBatch ps t us t')) body v
          (in_tx-Ends env order ps t v h.0 h.1))

-- CreateUsers keeps consistent tables consistent, however it ends, if other clients keep them so
-- and each of the given users has the default balance.
pub create_users_data-IsConsistent :
    (env : Env) (order : RowOrder) (ps : List DataCreatorCreateUserParams) (w : World)
    → OthersKeep IsConsistent env
    → All (λ (p : DataCreatorCreateUserParams). p.balance ≡ default_balance) ps
    → IsConsistent w.tables
    → IsConsistent (create_users_data env order ps w).1.tables
create_users_data-IsConsistent env order ps w keep h c =
    let c' = keep w.tick w.tables c in
    Ends-tables IsConsistent _ _ (create_users_data env order ps w)
      (λ us v b. IsBatch-IsConsistent b h c')
      (λ e v r. elim r [
        | inl kept ↦ subst IsConsistent (sym kept) c'
        | inr (us, b) ↦ IsBatch-IsConsistent b h c'
      ])
      (create_users_data-Ends env order ps w)
