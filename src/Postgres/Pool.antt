-- ===== src/Postgres/Pool.antt =====
-- Postconditions of requests on the pool, where other clients commit in between.
use merch.Base.{ℕ, ◌+◌, ◌≡◌, refl, none, some}
use merch.Go.Errors.{Error, Result, ok, err, panic}
use merch.Postgres.Schema.{Tables}
use merch.Postgres.Session.{
  Env, World, Action, Statement, done, pool, query, begin, defaults, arrived, Reply, on_pool,
  opened, delivered, lost_before, lost_after, deferring_rollback, lift, ◌>>=◌,
}
use merch.Postgres.Triples.{Ends, Ends-then}
use merch.Postgres.Transactions.{Yields}

-- What other clients have done to the tables.
pub data Others (env : Env) (t : Tables) : Tables → Type 0 where
  nobody : Others env t t
  somebody : {u : Tables} (n : ℕ) → Others env t u → Others env t (env.arrive n u)

pub Others-trans : {env : Env} {t u v : Tables} → Others env t u → Others env u v → Others env t v
Others-trans a nobody = a
Others-trans a (somebody n b) = somebody n (Others-trans a b)

-- Other clients keep a property of the tables, each on its own.
abbrev pub OthersKeep : (Tables → Type 0) → Env → Type 0
OthersKeep P env = (n : ℕ) (t : Tables) → P t → P (env.arrive n t)

pub Others-keep :
    (P : Tables → Type 0) {env : Env} {t u : Tables} → OthersKeep P env → Others env t u → P t → P u
Others-keep P k nobody h = h
Others-keep P k (somebody {u = u} n o) h = k n u (Others-keep P k o h)

abbrev pub TablesAre : {A : Type 0} → Tables → A → World → Type 0
TablesAre t _ v = v.tables ≡ t

-- what a request on the pool leaves that changes nothing
abbrev pub after : Env → World → World
after env w = record { tables = arrived env w; pending = none; tick = w.tick + 1 }

on_pool-read :
    {A : Type 0} (r : Reply) (x : A) (t : Tables) (n : ℕ)
    → Ends (λ a v. (v.tables ≡ t) × (a ≡ x)) (TablesAre t) (on_pool r (done x t) t n)
unfolding on_pool
on_pool-read delivered x t n = (refl, refl)
on_pool-read lost_before x t n = refl
on_pool-read lost_after x t n = refl

lift-read :
    {B : Type 0} (v : World) (t : Tables) (R : B → Type 0) (r : Result B)
    → v.tables ≡ t
    → Yields R r
    → Ends (λ b u. (u.tables ≡ t) × R b) (TablesAre t) (lift r v)
lift-read v t R (ok b) e h = (e, h)
lift-read v t R (err x) e h = e
lift-read v t R panic e h = h

-- A SELECT on the pool, and the scan of its rows: nothing changes but by the other clients.
pub read-Ends :
    {A B : Type 0} (env : Env) (s : Statement A) (f : A → Result B) (w : World) (x : A)
    (R : B → Type 0)
    → s (defaults env w.tick) (arrived env w) ≡ done x (arrived env w)
    → Yields R (f x)
    → Ends
        (λ b v. (v.tables ≡ arrived env w) × R b)
        (TablesAre (arrived env w))
        ((query env pool s >>= λ rows. lift (f rows)) w)
unfolding query
read-Ends env s f w x R e h =
    let t = arrived env w in
    Ends-then (λ a v. (v.tables ≡ t) × (a ≡ x)) (λ b v. (v.tables ≡ t) × R b) (TablesAre t)
      (TablesAre t) (query env pool s) (λ rows. lift (f rows)) w
      (rw (e, query) (on_pool-read (env.reply w.tick) x t (w.tick + 1))) (λ _ v k. k)
      (λ a v k. lift-read v t R (f a) k.0 (rw k.1 h))

-- A transaction starts from the committed tables.
opened-Ends :
    (r : Reply) (t : Tables) (n : ℕ)
    → Ends (λ _ v. (v.tables ≡ t) × (v.pending ≡ some t)) (TablesAre t) (opened r t n)
unfolding opened
opened-Ends delivered t n = (refl, refl)
opened-Ends lost_before t n = refl
opened-Ends lost_after t n = refl

pub begin-Ends :
    (env : Env) (w : World)
    → Ends
        (λ _ v. (v.tables ≡ arrived env w) × (v.pending ≡ some (arrived env w)))
        (TablesAre (arrived env w))
        (begin env w)
unfolding begin
begin-Ends env w = opened-Ends (env.reply w.tick) (arrived env w) (w.tick + 1)

-- The deferred rollback does nothing to the committed tables.
pub deferring_rollback-Ends :
    {A : Type 0} (Q : A → Tables → Type 0) (E : Error → Tables → Type 0) (m : Action A) (w : World)
    → Ends (λ a v. Q a v.tables) (λ e v. E e v.tables) (m w)
    → Ends (λ a v. Q a v.tables) (λ e v. E e v.tables) (deferring_rollback m w)
unfolding deferring_rollback
deferring_rollback-Ends {A} Q E m w h = go (m w) h
  where
    go :
        (r : Result A × World)
        → Ends (λ a v. Q a v.tables) (λ e v. E e v.tables) r
        → Ends (λ a v. Q a v.tables) (λ e v. E e v.tables) (r.0, record (r.1) { pending = none })
    go (ok a, v) h = h
    go (err e, v) h = h
    go (panic, v) h = h
