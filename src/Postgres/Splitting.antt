-- ===== src/Postgres/Splitting.antt =====
-- Postconditions of actions that may also panic: what holds when an action returns, and when it
-- fails.
use merch.Base.{◌+◌, String}
use merch.Go.Errors.{Error, Result, ok, err, panic, wrap_result}
use merch.Postgres.Schema.{Tables}
use merch.Postgres.Session.{
  Env, World, Action, Statement, Outcome, done, refused, pool, query, defaults, arrived, Reply,
  on_pool, delivered, lost_before, lost_after, continue, resolve, case_of, wrapped, ◌>>=◌,
}
use merch.Postgres.Triples.{Ends}
use merch.Postgres.Keeping.{OutcomeHas}

abbrev pub Splits :
    {A : Type 0} → (A → World → Type 0) → (Error → World → Type 0) → Result A × World → Type 0
Splits Q E (ok a, w) = Q a w
Splits Q E (err e, w) = E e w
Splits Q E (panic, w) = Unit

abbrev pub Anything : Error → World → Type 0
Anything e w = Unit

pub Ends-Splits :
    {A : Type 0} (Q : A → World → Type 0) (E : Error → World → Type 0) (r : Result A × World)
    → Ends Q E r
    → Splits Q E r
Ends-Splits Q E (ok a, w) h = h
Ends-Splits Q E (err e, w) h = h
Ends-Splits Q E (panic, w) h = tt

continue-Splits :
    {A B : Type 0} (Q : A → World → Type 0) (R : B → World → Type 0) (E : Error → World → Type 0)
    (f : A → Action B) (r : Result A × World)
    → Splits Q E r
    → ((a : A) (w : World) → Q a w → Splits R E (f a w))
    → Splits R E (continue r f)
continue-Splits Q R E f (ok a, w) h k = k a w h
continue-Splits Q R E f (err x, w) h k = h
continue-Splits Q R E f (panic, w) h k = tt

pub Splits-then :
    {A B : Type 0} (Q : A → World → Type 0) (R : B → World → Type 0) (E : Error → World → Type 0)
    (m : Action A) (f : A → Action B) (w : World)
    → Splits Q E (m w)
    → ((a : A) (v : World) → Q a v → Splits R E (f a v))
    → Splits R E ((m >>= f) w)
Splits-then Q R E m f w h k = continue-Splits Q R E f (m w) h k

resolve-Splits :
    {A B : Type 0} (Q : A → World → Type 0) (F : Error → World → Type 0) (R : B → World → Type 0)
    (E : Error → World → Type 0) (f : A → Action B) (g : Error → Action B) (r : Result A × World)
    → Splits Q F r
    → ((a : A) (v : World) → Q a v → Splits R E (f a v))
    → ((e : Error) (v : World) → F e v → Splits R E (g e v))
    → Splits R E (resolve r f g)
resolve-Splits Q F R E f g (ok a, w) h k l = k a w h
resolve-Splits Q F R E f g (err x, w) h k l = l x w h
resolve-Splits Q F R E f g (panic, w) h k l = tt

pub Splits-case_of :
    {A B : Type 0} (Q : A → World → Type 0) (F : Error → World → Type 0) (R : B → World → Type 0)
    (E : Error → World → Type 0) (m : Action A) (f : A → Action B) (g : Error → Action B)
    (w : World)
    → Splits Q F (m w)
    → ((a : A) (v : World) → Q a v → Splits R E (f a v))
    → ((e : Error) (v : World) → F e v → Splits R E (g e v))
    → Splits R E (case_of m f g w)
Splits-case_of Q F R E m f g w h k l = resolve-Splits Q F R E f g (m w) h k l

pub Splits-wrapped :
    {A : Type 0} (p : String) (Q : A → World → Type 0) (m : Action A) (w : World)
    → Splits Q Anything (m w)
    → Splits Q Anything (wrapped p m w)
unfolding wrap_result
Splits-wrapped {A} p Q m w h = go (m w) h
  where
    go : (r : Result A × World) → Splits Q Anything r → Splits Q Anything (wrap_result p r.0, r.1)
    go (ok a, v) h = h
    go (err e, v) h = h
    go (panic, v) h = h

pub query-Splits :
    {A : Type 0} (env : Env) (s : Statement A) (Q : A → Tables → Type 0) (w : World)
    → OutcomeHas Q (s (defaults env w.tick) (arrived env w))
    → Splits (λ a v. Q a v.tables) Anything (query env pool s w)
unfolding query on_pool
query-Splits {A} env s Q w h = go (env.reply w.tick) (s (defaults env w.tick) (arrived env w)) h
  where
    go :
        (r : Reply) (o : Outcome A)
        → OutcomeHas Q o
        → Splits (λ a v. Q a v.tables) Anything (on_pool r o (arrived env w) (w.tick + 1))
    go delivered (done a t) k = k
    go delivered (refused e) k = tt
    go lost_before o k = tt
    go lost_after (done a t) k = tt
    go lost_after (refused e) k = tt
