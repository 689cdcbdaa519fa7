-- ===== src/Go/Scan.antt =====
-- `fmt.Fscanf` on the bytes of a reader, for a format of literal text and "%d" into unsigned
-- integers. What is returned beside a number is what the reader has left.
use merch.Base.{
  ℕ, ◌^◌, ◌<◌, ◌≡◌, refl, Bool, true, false, ◌&&◌, ◌||◌, Option, none, some, [], ◌∷◌, ◌++◌, ◌==◌,
  ltb, leb, if◌then◌else◌, arith,
}
use merch.Go.Errors.{other, Result, ok, err}
use merch.Go.Decimal.{
  is_digit, AreDigits, value, itoa, itoa-AreDigits, value-itoa, itoa_starts, StartsWithDigit,
}
use merch.Postgres.Schema.{Bytes}

-- unicode.IsSpace as fmt has it, for the code points of one, two and three bytes
is_space : ℕ → Bool
is_space a = leb 9 a && leb a 13 || a == 32

is_space_2 : ℕ → ℕ → Bool
is_space_2 a b = a == 0xc2 && (b == 0x85 || b == 0xa0)

is_space_3 : ℕ → ℕ → ℕ → Bool
is_space_3 a b c =
    (a == 0xe1 && b == 0x9a && c == 0x80)
    || (a == 0xe2
        && b == 0x80
        && (leb 0x80 c && leb c 0x8a || (c == 0xa8 || (c == 0xa9 || c == 0xaf))))
    || (a == 0xe2 && b == 0x81 && c == 0x9f)
    || (a == 0xe3 && b == 0x80 && c == 0x80)

-- SkipSpace: a newline is an error.
unfoldable pub skip_space : Bytes → Option Bytes
unfolding is_space is_space_2 is_space_3
skip_space [] = some []
skip_space (a ∷ []) = if a == 10 then none else if is_space a then some [] else some (a ∷ [])
skip_space (a ∷ b ∷ []) =
    let one = skip_space (b ∷ []) in
    if a == 10
    then none
    else if is_space a
    then one
    else if is_space_2 a b
    then some []
    else some (a ∷ b ∷ [])
skip_space (a ∷ b ∷ c ∷ s) =
    let one = skip_space (b ∷ c ∷ s) in
    let two = skip_space (c ∷ s) in
    let three = skip_space s in
    if a == 10
    then none
    else if is_space a
    then one
    else if is_space_2 a b
    then two
    else if is_space_3 a b c
    then three
    else some (a ∷ b ∷ c ∷ s)

-- the digits at the front, and what follows them
unfoldable pub take_digits : Bytes → Bytes × Bytes
take_digits [] = ([], [])
take_digits (c ∷ s) = let (d, r) = take_digits s in if is_digit c then (c ∷ d, r) else ([], c ∷ s)

-- scanNumber and strconv.ParseUint, with the check of the operand's width
number_of : ℕ → Bytes × Bytes → Result (ℕ × Bytes)
number_of bits ([], []) = err (other "unexpected EOF")
number_of bits ([], c ∷ r) = err (other "expected integer")
number_of bits (c ∷ d, r) =
    let n = value 0 (c ∷ d) in
    if ltb n (2 ^ bits) then ok (n, r) else err (other "unsigned integer overflow")

after_space : ℕ → Option Bytes → Result (ℕ × Bytes)
unfolding number_of
after_space bits none = err (other "unexpected newline")
after_space bits (some s) = number_of bits (take_digits s)

-- "%d" into an unsigned integer of so many bits
unfoldable pub scan_uint : ℕ → Bytes → Result (ℕ × Bytes)
unfolding after_space
scan_uint bits s = after_space bits (skip_space s)

-- text of the format, which holds no spaces
unfoldable pub scan_text : Bytes → Bytes → Result Bytes
scan_text [] s = ok s
scan_text (f ∷ fs) [] = err (other "unexpected EOF")
scan_text (f ∷ fs) (c ∷ s) =
    if f == c then scan_text fs s else err (other "input does not match format")

pub scan_text_lem : (f s : Bytes) → scan_text f (f ++ s) ≡ ok s
unfolding scan_text
scan_text_lem [] s = refl
scan_text_lem (c ∷ f) s = ground (arith, scan_text_lem f s)

skip_space_digit : (c : ℕ) (s : Bytes) → is_digit c ≡ true → skip_space (c ∷ s) ≡ some (c ∷ s)
unfolding skip_space
skip_space_digit c [] h = ground arith
skip_space_digit c (b ∷ []) h = ground arith
skip_space_digit c (b ∷ d ∷ s) h = ground arith

-- what cannot go on a number
abbrev pub NoDigit : Bytes → Type 0
NoDigit [] = Unit
NoDigit (c ∷ s) = is_digit c ≡ false

take_digits_lem : (d r : Bytes) → AreDigits d → NoDigit r → take_digits (d ++ r) ≡ (d, r)
unfolding take_digits
take_digits_lem [] [] h k = refl
take_digits_lem [] (c ∷ r) h k = rw k refl
take_digits_lem (c ∷ d) r h k = rw (h.0, take_digits_lem d r h.1 k) refl

number_lem :
    (bits n : ℕ) (d r : Bytes)
    → StartsWithDigit d
    → value 0 d ≡ n
    → n < 2 ^ bits
    → number_of bits (d, r) ≡ ok (n, r)
unfolding number_of
number_lem bits n [] r (c, s, e, h) v lt = cc
number_lem bits n (c ∷ d) r st v lt = ground arith

skip_space-digits : (d r : Bytes) → StartsWithDigit d → skip_space (d ++ r) ≡ some (d ++ r)
skip_space-digits d r (c, s, e, h) = rw e (skip_space_digit c (s ++ r) h)

-- A printed number that fits is read back, up to what follows it.
pub scan_uint-itoa :
    (bits n : ℕ) (r : Bytes) → n < 2 ^ bits → NoDigit r → scan_uint bits (itoa n ++ r) ≡ ok (n, r)
unfolding scan_uint after_space
scan_uint-itoa bits n r fits no_digit =
    rw
      (
        skip_space-digits (itoa n) r (itoa_starts n),
        after_space,
        take_digits_lem (itoa n) r (itoa-AreDigits n) no_digit,
      )
      (number_lem bits n (itoa n) r (itoa_starts n) (value-itoa n) fits)

-- What is read fits the operand.
number-lt :
    (bits : ℕ) (d r : Bytes) (n : ℕ) (s : Bytes) → number_of bits (d, r) ≡ ok (n, s) → n < 2 ^ bits
unfolding number_of
number-lt bits [] [] n s e = cc
number-lt bits [] (c ∷ r) n s e = cc
number-lt bits (c ∷ d) r n s e = ground arith

after_space-lt :
    (bits : ℕ) (o : Option Bytes) (n : ℕ) (r : Bytes)
    → after_space bits o ≡ ok (n, r)
    → n < 2 ^ bits
unfolding after_space
after_space-lt bits none n r e = cc
after_space-lt bits (some s) n r e = let (d, rest) = take_digits s in number-lt bits d rest n r e

pub scan_uint-lt :
    (bits : ℕ) (s : Bytes) (n : ℕ) (r : Bytes) → scan_uint bits s ≡ ok (n, r) → n < 2 ^ bits
unfolding scan_uint
scan_uint-lt bits s n r e = after_space-lt bits (skip_space s) n r e
