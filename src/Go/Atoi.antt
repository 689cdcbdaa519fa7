-- ===== src/Go/Atoi.antt =====
-- strconv.Atoi, for a 64-bit int.
use merch.Base.{
  ℕ, ◌-◌, ◌^◌, ◌<◌, ◌≡◌, refl, ap, ◌∙◌, subst, sym, Bool, true, false, Option, none, some, [], ◌∷◌,
  ◌==◌, ltb, leb, if◌then◌else◌, arith,
}
use merch.Base.Int.{ℤ, pos, negsuc}
use merch.Go.Errors.{other, Result, ok, err}
use merch.Go.Decimal.{itoa, value, value-itoa, is_digit, AreDigits, itoa-AreDigits, itoa_starts}
use merch.Postgres.Schema.{Bytes}

abbrev all_digits : Bytes → Bool
all_digits [] = true
all_digits (c ∷ s) = if is_digit c then all_digits s else false

abbrev out_of_range : Result ℤ
out_of_range = err (other "strconv.Atoi: value out of range")

abbrev non_negative : ℕ → Result ℤ
non_negative n = if ltb n (2 ^ 63) then ok (pos n) else out_of_range

abbrev negative : ℕ → Result ℤ
negative n =
    if n == 0 then ok (pos 0) else if leb n (2 ^ 63) then ok (negsuc (n - 1)) else out_of_range

-- the digits after the sign
unfoldable pub magnitude : Bytes → Option ℕ
magnitude [] = none
magnitude (c ∷ s) = if all_digits (c ∷ s) then some (value 0 (c ∷ s)) else none

abbrev signed : (ℕ → Result ℤ) → Option ℕ → Result ℤ
signed f none = err (other "strconv.Atoi: invalid syntax")
signed f (some n) = f n

-- An optional + or -, and at least one digit.
unfoldable pub atoi : Bytes → Result ℤ
atoi [] = err (other "strconv.Atoi: invalid syntax")
atoi (c ∷ s) =
    if c == 43
    then signed non_negative (magnitude s)
    else if c == 45
    then signed negative (magnitude s)
    else signed non_negative (magnitude (c ∷ s))

all_digits_lem : (s : Bytes) → AreDigits s → all_digits s ≡ true
all_digits_lem [] h = refl
all_digits_lem (c ∷ s) h = rw h.0 (all_digits_lem s h.1)

unsigned :
    (c : ℕ) (s : Bytes) (n : ℕ)
    → AreDigits (c ∷ s)
    → value 0 (c ∷ s) ≡ n
    → n < 2 ^ 63
    → atoi (c ∷ s) ≡ ok (pos n)
unfolding atoi magnitude
unsigned c s n h e small =
    let plus : (c == 43) ≡ false = (let d = h.0 in ground arith) in
    let minus : (c == 45) ≡ false = (let d = h.0 in ground arith) in
    let fits : ltb n (2 ^ 63) ≡ true = ground arith in
    rw (atoi, plus, minus, all_digits_lem (c ∷ s) h, e, fits) refl

pub atoi-itoa : (n : ℕ) → n < 2 ^ 63 → atoi (itoa n) ≡ ok (pos n)
atoi-itoa n small =
    let (c, s, e, d) = itoa_starts n in
    ap atoi e
    ∙ unsigned c s n (subst AreDigits e (itoa-AreDigits n)) (ap (value 0) (sym e) ∙ value-itoa n)
        small
