-- ===== src/Go/Texts.antt =====
-- Decimal numbers as texts.
use Prim.Native.Char.{Char, code}
use merch.Base.{ℕ, String, ◌≡◌, refl, ap, Bool, true, false, [], ◌∷◌, ◌==◌, if◌then◌else◌, arith}
use merch.Go.Strings.{codes}
use merch.Go.Decimal.{itoa, itoa-AreDigits, itoa-injective, is_digit, AreDigits}
use merch.Postgres.Schema.{Bytes}

digit_char : ℕ → Char
digit_char c =
    if c == 48
    then "0"
    else if c == 49
    then "1"
    else if c == 50
    then "2"
    else if c == 51
    then "3"
    else if c == 52
    then "4"
    else if c == 53
    then "5"
    else if c == 54
    then "6"
    else if c == 55
    then "7"
    else if c == 56
    then "8"
    else "9"

code-if : (b : Bool) (x y : Char) → code (if b then x else y) ≡ (if b then code x else code y)
code-if true x y = refl
code-if false x y = refl

code-digit_char : (c : ℕ) → is_digit c ≡ true → code (digit_char c) ≡ c
unfolding digit_char
code-digit_char c h = simp (code-if) (ground arith)

-- the text of a number's digits
unfoldable pub text : Bytes → String
unfolding digit_char
text [] = ""
text (c ∷ s) = String.◌∷◌ (digit_char c) (text s)

codes-text : (s : Bytes) → AreDigits s → codes (text s) ≡ s
unfolding text
codes-text [] h = refl
codes-text (c ∷ s) h = rw (code-digit_char c h.0, codes-text s h.1) refl

pub codes-text-itoa : (n : ℕ) → codes (text (itoa n)) ≡ itoa n
codes-text-itoa n = codes-text (itoa n) (itoa-AreDigits n)

pub text-itoa-injective : (m n : ℕ) → text (itoa m) ≡ text (itoa n) → m ≡ n
text-itoa-injective m n e =
    itoa-injective m n (cc (ap codes e, codes-text-itoa m, codes-text-itoa n))
