-- ===== src/Tests/Json.antt =====
-- A text format that is read back as it was written.
use Prim.Native.Char.{Char, char, code, IsScalar, IsLt}
use Prim.Native.Nat.{compare, Ordering}
use merch.Base.{ℕ, String, ◌≡◌, refl, ap, [], ◌∷◌}
use merch.Go.Strings.{codes}
use merch.Postgres.Schema.{Bytes}

-- the definition of IsScalar, at the results of its three comparisons
abbrev Between : Ordering → Ordering → Type 0
Between Ordering.lt o = IsLt o
Between Ordering.eq o = ⊥
Between Ordering.gt o = ⊥

abbrev Scalar : Ordering → Ordering → Ordering → Type 0
Scalar Ordering.lt o p = Unit
Scalar Ordering.eq o p = Between o p
Scalar Ordering.gt o p = Between o p

abbrev dec_between : (o p : Ordering) → Dec (Between o p)
dec_between Ordering.lt Ordering.lt = yes tt
dec_between Ordering.lt Ordering.eq = no (λ e. e)
dec_between Ordering.lt Ordering.gt = no (λ e. e)
dec_between Ordering.eq p = no (λ e. e)
dec_between Ordering.gt p = no (λ e. e)

between_unique : (o p : Ordering) (x y : Between o p) → x ≡ y
between_unique Ordering.lt Ordering.lt x y = refl
between_unique Ordering.lt Ordering.eq x y = elim x [ ]
between_unique Ordering.lt Ordering.gt x y = elim x [ ]
between_unique Ordering.eq p x y = elim x [ ]
between_unique Ordering.gt p x y = elim x [ ]

abbrev dec_scalar : (a b c : Ordering) → Dec (Scalar a b c)
dec_scalar Ordering.lt o p = yes tt
dec_scalar Ordering.eq o p = dec_between o p
dec_scalar Ordering.gt o p = dec_between o p

scalar_unique : (a b c : Ordering) (x y : Scalar a b c) → x ≡ y
scalar_unique Ordering.lt o p x y = refl
scalar_unique Ordering.eq o p x y = between_unique o p x y
scalar_unique Ordering.gt o p x y = between_unique o p x y

abbrev char_from : (n : ℕ) → Dec (IsScalar n) → Char
char_from n (yes p) = char n p
char_from n (no h) = "x"

abbrev char_of : ℕ → Char
char_of n = char_from n (dec_scalar (compare n 55296) (compare 57343 n) (compare n 1114112))

char_from-code : (n : ℕ) (p : IsScalar n) (d : Dec (IsScalar n)) → char_from n d ≡ char n p
char_from-code n p (yes q) =
    ap (char n) (scalar_unique (compare n 55296) (compare 57343 n) (compare n 1114112) q p)
char_from-code n p (no h) = absurd (h p)

char_of-code : (c : Char) → char_of (code c) ≡ c
char_of-code (char n p) = char_from-code n p _

abbrev pub text_of : Bytes → String
text_of [] = String.[]
text_of (c ∷ s) = String.◌∷◌ (char_of c) (text_of s)

pub text_of-codes : (s : String) → text_of (codes s) ≡ s
text_of-codes String.[] = refl
text_of-codes (String.◌∷◌ c s) = rw (char_of-code c, text_of-codes s) refl
