-- ===== src/Postgres/Delivery.antt =====
-- Requests that are delivered, one after the other.
use merch.Base.{ℕ, ◌+◌, ◌≡◌, refl, ap, ◌∙◌, none, some, String}
use merch.Go.Errors.{Error, wrap, Result, ok, err, wrap_result}
use merch.Postgres.Schema.{Tables}
use merch.Postgres.Session.{
  Env, World, Action, Statement, done, refused, pool, tx, query, begin, commit, defaults, arrived,
  on_pool, on_tx, opened, publish, delivered, deferring_rollback, lift, wrapped, continue, ◌>>=◌,
}

-- No request is lost, and no answer.
abbrev pub Delivers : Env → Type 0
Delivers env = (n : ℕ) → env.reply n ≡ delivered

-- a world in an open transaction
abbrev pub midway : Tables → Tables → ℕ → World
midway t p n = record { tables = t; pending = some p; tick = n }

abbrev pub closed : Tables → ℕ → World
closed t n = record { tables = t; pending = none; tick = n }

pub bind_ok :
    {A B : Type 0} (m : Action A) (f : A → Action B) (a : A) (w v : World) {r : Result B × World}
    → m w ≡ (ok a, v)
    → f a v ≡ r
    → (m >>= f) w ≡ r
bind_ok m f a w v e h = ap (λ x. continue x f) e ∙ h

pub wrapped_ok :
    {A : Type 0} (p : String) (m : Action A) (a : A) (w v : World)
    → m w ≡ (ok a, v)
    → wrapped p m w ≡ (ok a, v)
unfolding wrap_result
wrapped_ok p m a w v e = ap (λ x. (wrap_result p x.0, x.1)) e

pub wrapped_err :
    {A : Type 0} (p : String) (m : Action A) (x : Error) (w v : World)
    → m w ≡ (err x, v)
    → wrapped p m w ≡ (err (wrap p x), v)
unfolding wrap_result
wrapped_err p m x w v e = ap (λ r. (wrap_result p r.0, r.1)) e

module _ (env : Env) (delivers : Delivers env) where
  -- A statement on the pool, and the scan of its rows.
  pub pool_scan_result :
      {A B : Type 0} (s : Statement A) (f : A → Result B) (w : World) (a : A) (t : Tables)
      (r : Result B)
      → s (defaults env w.tick) (arrived env w) ≡ done a t
      → f a ≡ r
      → (query env pool s >>= λ rows. lift (f rows)) w ≡ (r, closed t (w.tick + 1))
  unfolding query on_pool
  pool_scan_result s f w a t r e h = rw (query, delivers w.tick, e, h) refl

  pub pool_scan :
      {A B : Type 0} (s : Statement A) (f : A → Result B) (w : World) (a : A) (t : Tables) (b : B)
      → s (defaults env w.tick) (arrived env w) ≡ done a t
      → f a ≡ ok b
      → (query env pool s >>= λ rows. lift (f rows)) w ≡ (ok b, closed t (w.tick + 1))
  pool_scan s f w a t b e h = pool_scan_result s f w a t (ok b) e h

  pub pool_refused :
      {A B : Type 0} (s : Statement A) (f : A → Action B) (w : World) (e : Error)
      → s (defaults env w.tick) (arrived env w) ≡ refused e
      → (query env pool s >>= f) w ≡ (err e, closed (arrived env w) (w.tick + 1))
  unfolding query on_pool
  pool_refused s f w e h = rw (query, delivers w.tick, h) refl

  -- The same in a transaction.
  pub tx_scan :
      {A B : Type 0} (s : Statement A) (f : A → Result B) (t p : Tables) (n : ℕ) (a : A)
      (q : Tables) (b : B)
      → s (defaults env n) p ≡ done a q
      → f a ≡ ok b
      → (query env tx s >>= λ rows. lift (f rows)) (midway t p n) ≡ (ok b, midway t q (n + 1))
  unfolding query on_tx
  tx_scan s f t p n a q b e h = rw (query, delivers n, e, h) refl

  pub begin_delivered :
      (w : World) → begin env w ≡ (ok tt, midway (arrived env w) (arrived env w) (w.tick + 1))
  unfolding begin opened
  begin_delivered w = rw (begin, delivers w.tick) refl

  pub commit_delivered :
      (t p : Tables) (n : ℕ) → commit env (midway t p n) ≡ (ok tt, closed p (n + 1))
  unfolding commit publish
  commit_delivered t p n = rw (commit, delivers n) refl

pub deferring_rollback-closed :
    {A : Type 0} (m : Action A) (w : World) (a : A) (t : Tables) (n : ℕ)
    → m w ≡ (ok a, closed t n)
    → deferring_rollback m w ≡ (ok a, closed t n)
unfolding deferring_rollback
deferring_rollback-closed m w a t n e = ap (λ x. (x.0, record (x.1) { pending = none })) e
