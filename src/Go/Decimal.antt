-- ===== src/Go/Decimal.antt =====
-- strconv.Itoa of numbers that are not negative, and the number that `fmt.Fscanf` reads for "%d".
use mathlib.Core.Logic.{dite}
use mathlib.Core.WellFounded.{Acc, WellFounded}
use native.Mathlib.Decide.{dec_lt}
use Prim.Native.Nat.{◌/◌}
use merch.Base.{
  ◌≢◌, ℕ, zero, suc, ◌+◌, ◌-◌, ◌*◌, ◌%◌, ◌<◌, ◌≡◌, refl, ap, Bool, true, ◌&&◌, List, [], ◌∷◌, ◌++◌,
  leb, arith,
}
use merch.Base.Lists.{All}
use merch.Postgres.Schema.{Bytes}

Acc-below : (k n : ℕ) → n < k → Acc ◌<◌ n
Acc-below zero n h = absurd (omega arith)
Acc-below (suc k) n h = Acc.intro n (λ m hm. Acc-below k m (omega arith))

lt_wf : WellFounded ◌<◌
unfolding Acc-below
lt_wf = record { apply = λ n. Acc-below (suc n) n (omega arith) }

-- The quotient by ten falls, so every digit is printed.
digits : (n : ℕ) → Acc ◌<◌ n → Bytes
digits n (Acc.intro _ smaller) =
    dite (dec_lt 9 n)
      (λ h. digits (n / 10) (smaller (n / 10) (omega arith)) ++ ((48 + n % 10) ∷ []))
      (λ _. (48 + n) ∷ [])

unfoldable pub itoa : ℕ → Bytes
unfolding digits lt_wf dec_lt
itoa n = digits n (lt_wf.apply n)

abbrev pub is_digit : ℕ → Bool
is_digit c = leb 48 c && leb c 57

abbrev pub AreDigits : Bytes → Type 0
AreDigits = All (λ c. is_digit c ≡ true)

-- The digits' value, after `acc`.
unfoldable pub value : ℕ → Bytes → ℕ
value acc [] = acc
value acc (c ∷ s) = value (acc * 10 + (c - 48)) s

All-append : {A : Type 0} (P : A → Type 0) (xs ys : List A) → All P xs → All P ys → All P (xs ++ ys)
All-append P [] ys h k = k
All-append P (x ∷ xs) ys h k = (h.0, All-append P xs ys h.1 k)

digit_of : (d : ℕ) → d < 10 → is_digit (48 + d) ≡ true
digit_of d h = ground arith

branches :
    {P C : Type 0} (Q : C → Type 0) (d : Dec P) (x : P → C) (y : ¬ P → C)
    → ((h : P) → Q (x h))
    → ((h : ¬ P) → Q (y h))
    → Q (dite d x y)
branches Q (yes h) x y k l = k h
branches Q (no h) x y k l = l h

digits-AreDigits : (n : ℕ) (w : Acc ◌<◌ n) → AreDigits (digits n w)
unfolding digits
digits-AreDigits n (Acc.intro _ smaller) =
    branches AreDigits (dec_lt 9 n) _ _
      (λ h.
        All-append (λ c. is_digit c ≡ true) (digits (n / 10) (smaller (n / 10) (omega arith)))
          ((48 + n % 10) ∷ []) (digits-AreDigits (n / 10) (smaller (n / 10) (omega arith)))
          (digit_of (n % 10) (omega arith), tt))
      (λ h. (digit_of n (omega arith), tt))

value-append : (acc c : ℕ) (s : Bytes) → value acc (s ++ (c ∷ [])) ≡ value acc s * 10 + (c - 48)
unfolding value
value-append acc c [] = refl
value-append acc c (d ∷ s) = value-append (acc * 10 + (d - 48)) c s

value-digits : (n : ℕ) (w : Acc ◌<◌ n) → value 0 (digits n w) ≡ n
unfolding digits value
value-digits n (Acc.intro _ smaller) =
    branches (λ s. value 0 s ≡ n) (dec_lt 9 n) _ _
      (λ h. omega (
        arith,
        value-append 0 (48 + n % 10) (digits (n / 10) (smaller (n / 10) (omega arith))),
        value-digits (n / 10) (smaller (n / 10) (omega arith)),
      ))
      (λ h. omega arith)

-- A printed number has a first digit.
abbrev pub StartsWithDigit : Bytes → Type 0
StartsWithDigit s = (c : ℕ) × (r : Bytes) × (s ≡ c ∷ r) × (is_digit c ≡ true)

starts : (s : Bytes) → s ≢ [] → AreDigits s → StartsWithDigit s
starts [] ne h = absurd (ne refl)
starts (c ∷ s) ne h = (c, s, refl, h.0)

append_ne_empty : (s : Bytes) (c : ℕ) → s ++ (c ∷ []) ≢ []
append_ne_empty [] c e = cc
append_ne_empty (d ∷ s) c e = cc

digits_ne_empty : (n : ℕ) (w : Acc ◌<◌ n) → digits n w ≢ []
unfolding digits
digits_ne_empty n (Acc.intro _ smaller) =
    branches (λ s. s ≢ []) (dec_lt 9 n) _ _ (λ h. append_ne_empty _ _) (λ h e. cc)

pub itoa-AreDigits : (n : ℕ) → AreDigits (itoa n)
unfolding itoa
itoa-AreDigits n = digits-AreDigits n (lt_wf.apply n)

pub value-itoa : (n : ℕ) → value 0 (itoa n) ≡ n
unfolding itoa
value-itoa n = value-digits n (lt_wf.apply n)

pub itoa_starts : (n : ℕ) → StartsWithDigit (itoa n)
unfolding itoa
itoa_starts n = starts (itoa n) (digits_ne_empty n (lt_wf.apply n)) (itoa-AreDigits n)

-- No two numbers are printed alike.
pub itoa-injective : (m n : ℕ) → itoa m ≡ itoa n → m ≡ n
itoa-injective m n e = cc (ap (value 0) e, value-itoa m, value-itoa n)
