-- ===== src/Postgres/Keeping.antt =====
-- Actions that keep a property of the committed tables, however they end, panics included.
use merch.Base.{Bool, true, false, if◌then◌else◌, ℕ, ◌+◌}
use merch.Go.Errors.{Error, Result, ok, err, panic}
use merch.Postgres.Schema.{Tables}
use merch.Postgres.Session.{
  Env, World, Action, Statement, Outcome, done, refused, pool, query, defaults, arrived, Reply,
  on_pool, delivered, lost_before, lost_after, continue, resolve, case_of, lift, ◌>>=◌,
}
use merch.Postgres.Pool.{OthersKeep}

abbrev pub Keeps : {R : Type 0} → (Tables → Type 0) → (World → R × World) → Type 0
Keeps P m = (w : World) → P w.tables → P (m w).1.tables

abbrev pub OutcomeKeeps : {A : Type 0} → (Tables → Type 0) → Outcome A → Type 0
OutcomeKeeps P (done a t) = P t
OutcomeKeeps P (refused e) = Unit

-- what is known of the rows and the tables of a statement that is not refused
abbrev pub OutcomeHas : {A : Type 0} → (A → Tables → Type 0) → Outcome A → Type 0
OutcomeHas Q (done a t) = Q a t
OutcomeHas Q (refused e) = Unit

module _ (P : Tables → Type 0) where
  continue-keeps :
      {A B : Type 0} (r : Result A × World) (f : A → Action B)
      → P r.1.tables
      → ((a : A) → Keeps P (f a))
      → P (continue r f).1.tables
  continue-keeps (ok a, w) f h k = k a w h
  continue-keeps (err e, w) f h k = h
  continue-keeps (panic, w) f h k = h

  resolve-keeps :
      {A B : Type 0} (r : Result A × World) (f : A → Action B) (g : Error → Action B)
      → P r.1.tables
      → ((a : A) → Keeps P (f a))
      → ((e : Error) → Keeps P (g e))
      → P (resolve r f g).1.tables
  resolve-keeps (ok a, w) f g h k l = k a w h
  resolve-keeps (err e, w) f g h k l = l e w h
  resolve-keeps (panic, w) f g h k l = h

  pub Keeps-then :
      {A B : Type 0} (m : Action A) (f : A → Action B)
      → Keeps P m
      → ((a : A) → Keeps P (f a))
      → Keeps P (m >>= f)
  Keeps-then m f h k w c = continue-keeps (m w) f (h w c) k

  pub Keeps-case_of :
      {A B : Type 0} (m : Action A) (f : A → Action B) (g : Error → Action B)
      → Keeps P m
      → ((a : A) → Keeps P (f a))
      → ((e : Error) → Keeps P (g e))
      → Keeps P (case_of m f g)
  Keeps-case_of m f g h k l w c = resolve-keeps (m w) f g (h w c) k l

  pub Keeps-if :
      {R : Type 0} (b : Bool) (m n : World → R × World)
      → Keeps P m
      → Keeps P n
      → Keeps P (if b then m else n)
  Keeps-if true m n h k = h
  Keeps-if false m n h k = k

  on_pool-keeps :
      {A : Type 0} (r : Reply) (o : Outcome A) (t : Tables) (n : ℕ)
      → P t
      → OutcomeKeeps P o
      → P (on_pool r o t n).1.tables
  unfolding on_pool
  on_pool-keeps delivered (done a t') t n h k = k
  on_pool-keeps delivered (refused e) t n h k = h
  on_pool-keeps lost_before o t n h k = h
  on_pool-keeps lost_after (done a t') t n h k = k
  on_pool-keeps lost_after (refused e) t n h k = h

  -- a statement on the pool, and the scan of its rows
  pub query-Keeps :
      {A : Type 0} (env : Env) (s : Statement A)
      → OthersKeep P env
      → ((n : ℕ) (t : Tables) → P t → OutcomeKeeps P (s (defaults env n) t))
      → Keeps P (query env pool s)
  unfolding query
  query-Keeps env s keep k w c =
      let c' = keep w.tick w.tables c in
      on_pool-keeps (env.reply w.tick) (s (defaults env w.tick) (arrived env w)) (arrived env w)
        (w.tick + 1) c' (k w.tick (arrived env w) c')

  pub query_then-Keeps :
      {A B : Type 0} (env : Env) (s : Statement A) (f : A → Result B)
      → OthersKeep P env
      → ((n : ℕ) (t : Tables) → P t → OutcomeKeeps P (s (defaults env n) t))
      → Keeps P (query env pool s >>= λ rows. lift (f rows))
  query_then-Keeps env s f keep k =
      Keeps-then (query env pool s) (λ rows. lift (f rows)) (query-Keeps env s keep k) (λ _ _ c. c)
