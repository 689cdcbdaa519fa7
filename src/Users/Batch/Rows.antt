-- ===== src/Users/Batch/Rows.antt =====
-- The rows that one INSERT adds to the table of users.
use merch.Base.{ℕ, ◌+◌, ◌≡◌, refl, subst, none, List, [], ◌∷◌, map}
use merch.Base.Lists.{All}
use merch.Base.Reorderings.{IsReordered, All-IsReordered}
use merch.Postgres.Schema.{UserRow, Tables}
use merch.Postgres.Session.{Defaults, Outcome, done, refused}
use merch.Postgres.Keeping.{OutcomeHas}
use merch.Users.Model.{User, user_of}
use merch.Users.Creator.{
  DataCreatorCreateUserParams, default_balance, new_user_row, insert_user, insert_each,
  insert_users, RowOrder, returned_as, and_rows, and_then,
}
use merch.Users.Registration.{IsInserted, insert_user-IsInserted}
use merch.Ledger.Accounts.{find, find_username}
use merch.Ledger.Invariant.{IsConsistent}
use merch.Ledger.Change.{registration, registered}
use merch.Ledger.Preservation.{Change-IsConsistent}

-- One row after the other, each with a new id and a username that is free by then.
pub data Batch (d : Defaults)
    : ℕ → List DataCreatorCreateUserParams → Tables → List UserRow → Tables → Type 0 where
  empty : {n : ℕ} {t : Tables} → Batch d n [] t [] t
  next :
      {n : ℕ} {p : DataCreatorCreateUserParams} {ps : List DataCreatorCreateUserParams}
      {t t' : Tables} {rows : List UserRow}
      → find (d.ids n) t.users ≡ none
      → find_username p.username t.users ≡ none
      → Batch d (n + 1) ps (registered (new_user_row p (d.ids n)) t) rows t'
      → Batch d n (p ∷ ps) t (new_user_row p (d.ids n) ∷ rows) t'

and_then-Batch :
    (n : ℕ) (p : DataCreatorCreateUserParams) (ps : List DataCreatorCreateUserParams) (d : Defaults)
    (t : Tables) (o : Outcome (List UserRow)) (f : Tables → Outcome (List UserRow))
    → OutcomeHas (IsInserted n p d t) o
    → ((t' : Tables) → OutcomeHas (λ rows t''. Batch d (n + 1) ps t' rows t'') (f t'))
    → OutcomeHas (λ rows t''. Batch d n (p ∷ ps) t rows t'') (and_then o f)
and_then-Batch n p ps d t (refused e) f h k = tt
and_then-Batch n p ps d t (done rs t') f h k = more (f t') (k t')
  where
    more :
        (o : Outcome (List UserRow))
        → OutcomeHas (λ rows t''. Batch d (n + 1) ps t' rows t'') o
        → OutcomeHas (λ rows t''. Batch d n (p ∷ ps) t rows t'') (and_rows rs o)
    more (refused e) b = tt
    more (done rs' t'') b =
        rw h.returned (next h.fresh h.free (subst (λ x. Batch d (n + 1) ps x rs' t'') h.written b))

insert_each-Batch :
    (n : ℕ) (ps : List DataCreatorCreateUserParams) (d : Defaults) (t : Tables)
    → OutcomeHas (λ rows t'. Batch d n ps t rows t') (insert_each n ps d t)
unfolding insert_each
insert_each-Batch n [] d t = empty
insert_each-Batch n (p ∷ ps) d t =
    and_then-Batch n p ps d t (insert_user n p d t) (λ t'. insert_each (n + 1) ps d t')
      (insert_user-IsInserted n p d t) (λ t'. insert_each-Batch (n + 1) ps d t')

-- Users with the default balance keep the tables consistent.
Batch-IsConsistent :
    {d : Defaults} {n : ℕ} {ps : List DataCreatorCreateUserParams} {t t' : Tables}
    {rows : List UserRow}
    → Batch d n ps t rows t'
    → All (λ (p : DataCreatorCreateUserParams). p.balance ≡ default_balance) ps
    → IsConsistent t
    → IsConsistent t'
Batch-IsConsistent empty h c = c
Batch-IsConsistent (next fresh free rest) h c =
    Batch-IsConsistent rest h.1 (Change-IsConsistent (registration _ h.0 fresh free refl) c)

-- What the statement returned, and what the tables are then: the parameters were taken in some
-- order, and the new rows returned in some order.
pub record IsBatch (ps : List DataCreatorCreateUserParams) (t : Tables) (us : List User)
    (t' : Tables) : Type 0 where
  pub values : Defaults
  pub scanned : List DataCreatorCreateUserParams
  pub all_scanned : IsReordered ps scanned
  pub rows : List UserRow
  pub inserted : Batch values 0 scanned t rows t'
  pub returned : List UserRow
  pub all_returned : IsReordered rows returned
  pub users : us ≡ map user_of returned

pub IsBatch-IsConsistent :
    {ps : List DataCreatorCreateUserParams} {t t' : Tables} {us : List User}
    → IsBatch ps t us t'
    → All (λ (p : DataCreatorCreateUserParams). p.balance ≡ default_balance) ps
    → IsConsistent t
    → IsConsistent t'
IsBatch-IsConsistent b h c =
    Batch-IsConsistent b.inserted
      (All-IsReordered (λ (p : DataCreatorCreateUserParams). p.balance ≡ default_balance)
        b.all_scanned h)
      c

pub IsBatch-insert_users :
    (order : RowOrder) (n : ℕ) (ps : List DataCreatorCreateUserParams) (d : Defaults) (t : Tables)
    → OutcomeHas (λ rows t'. IsBatch ps t (map user_of rows) t') (insert_users order n ps d t)
unfolding insert_users
IsBatch-insert_users order n ps d t =
    go (insert_each 0 (order.scan n ps) d t) (insert_each-Batch 0 (order.scan n ps) d t)
  where
    go :
        (o : Outcome (List UserRow))
        → OutcomeHas (λ rows t'. Batch d 0 (order.scan n ps) t rows t') o
        → OutcomeHas
            (λ rows t'. IsBatch ps t (map user_of rows) t')
            (returned_as (order.returning n) o)
    go (refused e) b = tt
    go (done rows t') b = record {
      values = d;
      scanned = order.scan n ps;
      all_scanned = order.scan-IsReordered n ps;
      rows = rows;
      inserted = b;
      returned = order.returning n rows;
      all_returned = order.returning-IsReordered n rows;
      users = refl;
    }
