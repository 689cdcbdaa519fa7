-- ===== src/Postgres/Transactions.antt =====
-- Postconditions of the requests that a transaction makes.
use merch.Base.{◌+◌, ◌≡◌, refl, sym, ap, ◌⊎◌, inl, inr, some}
use merch.Go.Errors.{Error, Result, ok, err, panic}
use merch.Postgres.Schema.{Tables}
use merch.Postgres.Session.{
  Env, World, Statement, done, refused, tx, query, commit, defaults, Reply, Outcome, on_tx, publish,
  delivered, lost_before, lost_after, lift, ◌>>=◌,
}
use merch.Postgres.Triples.{Ends, Ends-bind}

-- A statement in the open transaction leaves the committed tables alone.
abbrev pub Answered : {A : Type 0} → Env → Statement A → World → Tables → A → World → Type 0
Answered env s w t a w' =
    (w'.tables ≡ w.tables)
    × ((t' : Tables) × (w'.pending ≡ some t') × (s (defaults env w.tick) t ≡ done a t'))

abbrev pub Kept : World → Error → World → Type 0
Kept w e w' = w'.tables ≡ w.tables

on_tx-Ends :
    {A : Type 0} (env : Env) (s : Statement A) (w : World) (t : Tables) (r : Reply) (o : Outcome A)
    → s (defaults env w.tick) t ≡ o
    → Ends (Answered env s w t) (Kept w) (on_tx r o (record w { tick = w.tick + 1 }))
unfolding on_tx
on_tx-Ends env s w t delivered (done a t') e = (refl, (t', refl, e))
on_tx-Ends env s w t delivered (refused x) e = refl
on_tx-Ends env s w t lost_before o e = refl
on_tx-Ends env s w t lost_after o e = refl

pub query_tx-Ends :
    {A : Type 0} (env : Env) (s : Statement A) (w : World) (t : Tables)
    → w.pending ≡ some t
    → Ends (Answered env s w t) (Kept w) (query env tx s w)
unfolding query
query_tx-Ends env s w t e =
    rw (e, query) (on_tx-Ends env s w t (env.reply w.tick) (s (defaults env w.tick) t) refl)

-- The rows and the tables of an outcome that is known.
pub done_parts :
    {A : Type 0} (a b : A) (t u : Tables)
    → ◌≡◌ {A = Outcome A} (done a t) (done b u)
    → (b ≡ a) × (u ≡ t)
done_parts {A} a b t u e = (sym (ap (first a) e), sym (ap (second t) e))
  where
    first : A → Outcome A → A
    first d (done x v) = x
    first d (refused y) = d

    second : Tables → Outcome A → Tables
    second d (done x v) = v
    second d (refused y) = d

-- A pure result that is not a panic, and meets `R` if it is a value.
abbrev pub Yields : {B : Type 0} → (B → Type 0) → Result B → Type 0
Yields R (ok b) = R b
Yields R (err e) = Unit
Yields R panic = ⊥

pub Yields-mono :
    {B : Type 0} (R S : B → Type 0) (r : Result B) → ((b : B) → R b → S b) → Yields R r → Yields S r
Yields-mono R S (ok b) k h = k b h
Yields-mono R S (err e) k h = tt
Yields-mono R S panic k h = h

-- Still in the transaction, with tables of which `R` holds.
abbrev pub InTx : {B : Type 0} → World → (B → Tables → Type 0) → B → World → Type 0
InTx w R b w' = (w'.tables ≡ w.tables) × ((t' : Tables) × (w'.pending ≡ some t') × R b t')

lift-Ends :
    {B : Type 0} (w v : World) (t' : Tables) (R : B → Tables → Type 0) (r : Result B)
    → v.tables ≡ w.tables
    → v.pending ≡ some t'
    → Yields (λ b. R b t') r
    → Ends (InTx w R) (Kept w) (lift r v)
lift-Ends w v t' R (ok b) e p h = (e, (t', p, h))
lift-Ends w v t' R (err x) e p h = e
lift-Ends w v t' R panic e p h = h

-- A statement whose rows are then scanned.
pub query_then-Ends :
    {A B : Type 0} (env : Env) (s : Statement A) (f : A → Result B) (w : World) (t : Tables)
    (R : B → Tables → Type 0)
    → w.pending ≡ some t
    → ((rows : A) (t' : Tables)
        → s (defaults env w.tick) t ≡ done rows t'
        → Yields (λ b. R b t') (f rows))
    → Ends (InTx w R) (Kept w) ((query env tx s >>= λ rows. lift (f rows)) w)
query_then-Ends env s f w t R e h =
    Ends-bind (Answered env s w t) (InTx w R) (Kept w) (query env tx s) (λ rows. lift (f rows)) w
      (query_tx-Ends env s w t e)
      (λ rows v _ a. lift-Ends w v a.1.0 R (f rows) a.0 a.1.1 (h rows a.1.0 a.1.2))

abbrev pub Published : Tables → Unit {0} → World → Type 0
Published t _ w' = w'.tables ≡ t

-- Nothing has been written, or all of `t`.
abbrev pub AllOrNothing : World → Tables → Error → World → Type 0
AllOrNothing w t e w' = (w'.tables ≡ w.tables) ⊎ (w'.tables ≡ t)

publish-Ends :
    (w : World) (t : Tables) (r : Reply) → Ends (Published t) (AllOrNothing w t) (publish r t w)
unfolding publish
publish-Ends w t delivered = refl
publish-Ends w t lost_before = inl refl
publish-Ends w t lost_after = inr refl

-- A commit publishes the tables of the transaction; when its answer is lost, it may have done so.
pub commit-Ends :
    (env : Env) (w : World) (t : Tables)
    → w.pending ≡ some t
    → Ends (Published t) (AllOrNothing w t) (commit env w)
unfolding commit
commit-Ends env w t e = rw (e, commit) (publish-Ends w t (env.reply w.tick))
