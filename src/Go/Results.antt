-- ===== src/Go/Results.antt =====
-- Chains of calls that return a value or an error, without the database.
use merch.Base.{String, ◌≡◌, refl, ap}
use merch.Go.Errors.{Result, ok, err, panic, wrap_result}

infixl 5 ◌>>=◌ ◌>>◌
abbrev pub ◌>>=◌ : {A B : Type 0} → Result A → (A → Result B) → Result B
ok a >>= f = f a
err e >>= f = err e
panic >>= f = panic

abbrev pub ◌>>◌ : {A B : Type 0} → Result A → Result B → Result B
m >> k = m >>= λ _. k

pub >>=-eq-ok :
    {A B : Type 0} (m : Result A) (f : A → Result B) (b : B)
    → (m >>= f) ≡ ok b
    → (a : A) × (m ≡ ok a) × (f a ≡ ok b)
>>=-eq-ok (ok a) f b h = (a, refl, h)
>>=-eq-ok (err e) f b h = cc
>>=-eq-ok panic f b h = cc

pub wrap_result-eq-ok :
    {A : Type 0} (p : String) (a : A) (r : Result A) → wrap_result p r ≡ ok a → r ≡ ok a
unfolding wrap_result
wrap_result-eq-ok p a (ok b) e = e
wrap_result-eq-ok p a (err x) e = cc
wrap_result-eq-ok p a panic e = cc

pub ok_value : {A : Type 0} {a b : A} → ◌≡◌ {A = Result A} (ok a) (ok b) → a ≡ b
ok_value {A} {a} e = ap value e
  where
    value : Result A → A
    value (ok x) = x
    value (err x) = a
    value panic = a
