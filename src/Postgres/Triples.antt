-- ===== src/Postgres/Triples.antt =====
-- Postconditions of actions: what holds of the result and the world when an action returns, and
-- when it fails. An action that satisfies one does not panic.
use merch.Base.{◌≡◌, refl, String}
use merch.Go.Errors.{Error, wrap, Result, ok, err, panic, wrap_result}
use merch.Postgres.Schema.{Tables}
use merch.Postgres.Session.{World, Action, wrapped, continue, resolve, case_of, ◌>>=◌}

abbrev pub Ends :
    {A : Type 0} → (A → World → Type 0) → (Error → World → Type 0) → Result A × World → Type 0
Ends Q E (ok a, w) = Q a w
Ends Q E (err e, w) = E e w
Ends Q E (panic, w) = ⊥

continue-Ends :
    {A B : Type 0} (Q : A → World → Type 0) (R : B → World → Type 0) (E : Error → World → Type 0)
    (f : A → Action B) (r : Result A × World)
    → Ends Q E r
    → ((a : A) (w : World) → r ≡ (ok a, w) → Q a w → Ends R E (f a w))
    → Ends R E (continue r f)
continue-Ends Q R E f (ok a, w) h k = k a w refl h
continue-Ends Q R E f (err x, w) h k = h
continue-Ends Q R E f (panic, w) h k = absurd h

-- One step of a do block.
pub Ends-bind :
    {A B : Type 0} (Q : A → World → Type 0) (R : B → World → Type 0) (E : Error → World → Type 0)
    (m : Action A) (f : A → Action B) (w : World)
    → Ends Q E (m w)
    → ((a : A) (w' : World) → m w ≡ (ok a, w') → Q a w' → Ends R E (f a w'))
    → Ends R E ((m >>= f) w)
Ends-bind Q R E m f w h k = continue-Ends Q R E f (m w) h k

-- A weaker postcondition.
pub Ends-mono :
    {A : Type 0} (Q R : A → World → Type 0) (E F : Error → World → Type 0) (r : Result A × World)
    → ((a : A) (w : World) → Q a w → R a w)
    → ((e : Error) (w : World) → E e w → F e w)
    → Ends Q E r
    → Ends R F r
Ends-mono Q R E F (ok a, w) q e h = q a w h
Ends-mono Q R E F (err x, w) q e h = e x w h
Ends-mono Q R E F (panic, w) q e h = h

-- `fmt.Errorf` changes the error only.
pub Ends-wrapped :
    {A : Type 0} (p : String) (Q : A → World → Type 0) (E : Error → World → Type 0) (m : Action A)
    (w : World)
    → Ends Q (λ e w'. E (wrap p e) w') (m w)
    → Ends Q E (wrapped p m w)
unfolding wrap_result
Ends-wrapped {A} p Q E m w h = go (m w) h
  where
    go :
        (r : Result A × World)
        → Ends Q (λ e w'. E (wrap p e) w') r
        → Ends Q E (wrap_result p r.0, r.1)
    go (ok a, w') h = h
    go (err e, w') h = h
    go (panic, w') h = h

-- One step whose failures are a case of the block's.
pub Ends-then :
    {A B : Type 0} (Q : A → World → Type 0) (R : B → World → Type 0) (F E : Error → World → Type 0)
    (m : Action A) (f : A → Action B) (w : World)
    → Ends Q F (m w)
    → ((e : Error) (w' : World) → F e w' → E e w')
    → ((a : A) (w' : World) → Q a w' → Ends R E (f a w'))
    → Ends R E ((m >>= f) w)
Ends-then Q R F E m f w h weaken k =
    Ends-bind Q R E m f w (Ends-mono Q Q F E (m w) (λ a v q. q) weaken h) (λ a v _. k a v)

resolve-Ends :
    {A B : Type 0} (Q : A → World → Type 0) (F : Error → World → Type 0) (R : B → World → Type 0)
    (E : Error → World → Type 0) (f : A → Action B) (g : Error → Action B) (r : Result A × World)
    → Ends Q F r
    → ((a : A) (v : World) → Q a v → Ends R E (f a v))
    → ((e : Error) (v : World) → F e v → Ends R E (g e v))
    → Ends R E (resolve r f g)
resolve-Ends Q F R E f g (ok a, w) h k l = k a w h
resolve-Ends Q F R E f g (err x, w) h k l = l x w h
resolve-Ends Q F R E f g (panic, w) h k l = absurd h

-- A branch on the error.
pub Ends-case_of :
    {A B : Type 0} (Q : A → World → Type 0) (F : Error → World → Type 0) (R : B → World → Type 0)
    (E : Error → World → Type 0) (m : Action A) (f : A → Action B) (g : Error → Action B)
    (w : World)
    → Ends Q F (m w)
    → ((a : A) (v : World) → Q a v → Ends R E (f a v))
    → ((e : Error) (v : World) → F e v → Ends R E (g e v))
    → Ends R E (case_of m f g w)
Ends-case_of Q F R E m f g w h k l = resolve-Ends Q F R E f g (m w) h k l

-- What both ways to end say of the committed tables.
pub Ends-tables :
    {A : Type 0} (P : Tables → Type 0) (Q : A → World → Type 0) (E : Error → World → Type 0)
    (r : Result A × World)
    → ((a : A) (v : World) → Q a v → P v.tables)
    → ((e : Error) (v : World) → E e v → P v.tables)
    → Ends Q E r
    → P r.1.tables
Ends-tables P Q E (ok a, v) q e h = q a v h
Ends-tables P Q E (err x, v) q e h = e x v h
Ends-tables P Q E (panic, v) q e h = absurd h
