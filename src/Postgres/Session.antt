-- ===== src/Postgres/Session.antt =====
-- A client's session: statements on the pool, and one transaction at a time. What the server and
-- the network are free to choose is the `Env`.
use merch.Base.{ℕ, ◌+◌, Option, none, some, String}
use merch.Go.Errors.{
  Error, sentinel, other, Sentinel, tx_closed, Result, ok, err, panic, wrap_result,
}
use merch.Postgres.Schema.{Uuid, Time, Tables}

-- How a request fares: answered, lost on the way there, or carried out with its answer lost.
pub data Reply : Type 0 where
  delivered lost_before lost_after : Reply

-- Indexed by the number of requests that the session has made.
pub record Env : Type 0 where
  pub reply : ℕ → Reply
  -- what other clients commit before the request
  pub arrive : ℕ → Tables → Tables
  -- uuid_generate_v4(), once for each row of the request, and now()
  pub uuid : ℕ → ℕ → Uuid
  pub now : ℕ → Time

-- The values of the DEFAULT columns: an id for each row that one statement inserts.
pub record Defaults : Type 0 where
  pub ids : ℕ → Uuid
  pub created_at : Time

pub record World : Type 0 where
  pub tables : Tables
  -- the tables as the open transaction sees them
  pub pending : Option Tables
  pub tick : ℕ

abbrev pub Action : Type 0 → Type 0
Action A = World → Result A × World

module _ {A : Type 0} where
  abbrev pub pure : A → Action A
  pure a w = (ok a, w)

  abbrev pub fail : Error → Action A
  fail e w = (err e, w)

  abbrev pub fail_with : Sentinel → Action A
  fail_with s w = (err (sentinel s), w)

  abbrev pub lift : Result A → Action A
  lift r w = (r, w)

  -- every error of the function gets the same prefix
  abbrev pub wrapped : String → Action A → Action A
  wrapped p m w = let (r, w') = m w in (wrap_result p r, w')

abbrev pub continue : {A B : Type 0} → Result A × World → (A → Action B) → Result B × World
continue (ok a, w) f = f a w
continue (err e, w) f = (err e, w)
continue (panic, w) f = (panic, w)

infixl 5 ◌>>=◌ ◌>>◌
abbrev pub ◌>>=◌ : {A B : Type 0} → Action A → (A → Action B) → Action B
◌>>=◌ m f w = continue (m w) f

abbrev pub ◌>>◌ : {A B : Type 0} → Action A → Action B → Action B
m >> k = m >>= λ _. k

-- What a statement does to the tables that it sees: it returns rows, or is refused as a whole.
pub data Outcome (A : Type 0) : Type 0 where
  done : A → Tables → Outcome A
  refused : Error → Outcome A

abbrev pub Statement : Type 0 → Type 0
Statement A = Defaults → Tables → Outcome A

-- `app.PgxExecutor`: the pool or a transaction
pub data Executor : Type 0 where
  pool tx : Executor

abbrev pub connection_lost : Error
connection_lost = other "connection lost"

module _ {A : Type 0} where
  -- a statement on the pool is a transaction of its own
  unfoldable pub on_pool : Reply → Outcome A → Tables → ℕ → Result A × World
  on_pool delivered (done a t) t0 n = (ok a, record { tables = t; pending = none; tick = n })
  on_pool delivered (refused e) t0 n = (err e, record { tables = t0; pending = none; tick = n })
  on_pool lost_before o t0 n =
      (err connection_lost, record { tables = t0; pending = none; tick = n })
  on_pool lost_after (done a t) t0 n =
      (err connection_lost, record { tables = t; pending = none; tick = n })
  on_pool lost_after (refused e) t0 n =
      (err connection_lost, record { tables = t0; pending = none; tick = n })

  unfoldable pub on_tx : Reply → Outcome A → World → Result A × World
  on_tx delivered (done a t) w = (ok a, record w { pending = some t })
  on_tx delivered (refused e) w = (err e, w)
  on_tx lost_before o w = (err connection_lost, w)
  on_tx lost_after o w = (err connection_lost, w)

-- a BEGIN; a transaction whose client is gone is rolled back by the server
unfoldable pub opened : Reply → Tables → ℕ → Result Unit × World
opened delivered t n = (ok tt, record { tables = t; pending = some t; tick = n })
opened lost_before t n = (err connection_lost, record { tables = t; pending = none; tick = n })
opened lost_after t n = (err connection_lost, record { tables = t; pending = none; tick = n })

-- a COMMIT of the tables `t`
unfoldable pub publish : Reply → Tables → World → Result Unit × World
publish delivered t w = (ok tt, record { tables = t; pending = none; tick = w.tick + 1 })
publish lost_before t w = (err connection_lost, record w { pending = none; tick = w.tick + 1 })
publish lost_after t w =
    (err connection_lost, record { tables = t; pending = none; tick = w.tick + 1 })

module _ (env : Env) where
  unfoldable pub defaults : ℕ → Defaults
  defaults n = record { ids = env.uuid n; created_at = env.now n }

  abbrev pub arrived : World → Tables
  arrived w = env.arrive w.tick w.tables

  unfoldable pub query : {A : Type 0} → Executor → Statement A → Action A
  unfolding on_pool on_tx
  query pool s w =
      on_pool (env.reply w.tick) (s (defaults w.tick) (arrived w)) (arrived w) (w.tick + 1)
  query tx s w = elim w.pending [
    | none ↦ (err (sentinel tx_closed), w)
    | some t ↦ on_tx (env.reply w.tick) (s (defaults w.tick) t) (record w { tick = w.tick + 1 })
  ]

  unfoldable pub begin : Action Unit
  unfolding opened
  begin w = opened (env.reply w.tick) (arrived w) (w.tick + 1)

  unfoldable pub commit : Action Unit
  unfolding publish
  commit w = elim w.pending [
    | none ↦ (err (sentinel tx_closed), w)
    | some t ↦ publish (env.reply w.tick) t w
  ]

-- `defer tx.Rollback(ctx)`: on every way out, panics included; after a commit it does nothing.
unfoldable pub deferring_rollback : {A : Type 0} → Action A → Action A
deferring_rollback m w = let (r, w') = m w in (r, record w' { pending = none })

abbrev pub resolve :
    {A B : Type 0} → Result A × World → (A → Action B) → (Error → Action B) → Result B × World
resolve (ok a, w) f g = f a w
resolve (err e, w) f g = g e w
resolve (panic, w) f g = (panic, w)

-- `a, err := m`, and a branch on `err`
abbrev pub case_of : {A B : Type 0} → Action A → (A → Action B) → (Error → Action B) → Action B
case_of m f g w = resolve (m w) f g
