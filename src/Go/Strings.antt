-- ===== src/Go/Strings.antt =====
-- What internal/user uses of the package strings, on the bytes of a text.
use Prim.Native.Char.{code}
use merch.Base.{
  ℕ, String, ◌≡◌, ◌≢◌, refl, Bool, true, false, ◌&&◌, Option, none, some, List, [], ◌∷◌, ◌++◌, ◌==◌,
  if◌then◌else◌, arith,
}
use merch.Base.Lists.{All}
use merch.Postgres.Schema.{Bytes}

-- the bytes of an ASCII text
abbrev pub codes : String → Bytes
codes String.[] = []
codes (String.◌∷◌ c s) = code c ∷ codes s

unfoldable pub bytes_eq : Bytes → Bytes → Bool
bytes_eq [] [] = true
bytes_eq (a ∷ x) (b ∷ y) = a == b && bytes_eq x y
bytes_eq [] (b ∷ y) = false
bytes_eq (a ∷ x) [] = false

pub bytes_eq_refl : (x : Bytes) → bytes_eq x x ≡ true
unfolding bytes_eq
bytes_eq_refl [] = refl
bytes_eq_refl (a ∷ x) = ground (arith, bytes_eq_refl x)

pub eq_of_bytes_eq : (x y : Bytes) → bytes_eq x y ≡ true → x ≡ y
unfolding bytes_eq
eq_of_bytes_eq [] [] e = refl
eq_of_bytes_eq (a ∷ x) (b ∷ y) e = ground (arith, eq_of_bytes_eq x y)
eq_of_bytes_eq [] (b ∷ y) e = cc
eq_of_bytes_eq (a ∷ x) [] e = cc

-- "$"
abbrev pub dollar : ℕ
dollar = 36

-- strings.CutPrefix(s, "$")
unfoldable pub cut_dollar : Bytes → Option Bytes
cut_dollar [] = none
cut_dollar (c ∷ s) = if c == dollar then some s else none

-- a byte in front of the first field
abbrev pub push : ℕ → List Bytes → List Bytes
push c [] = (c ∷ []) ∷ []
push c (f ∷ fs) = (c ∷ f) ∷ fs

-- strings.Split(s, "$")
unfoldable pub split : Bytes → List Bytes
split [] = [] ∷ []
split (c ∷ s) = let rest = split s in if c == dollar then [] ∷ rest else push c rest

abbrev pub IsPlain : Bytes → Type 0
IsPlain = All (λ c. c ≢ dollar)

pub split_last : (f : Bytes) → IsPlain f → split f ≡ f ∷ []
unfolding split
split_last [] h = refl
split_last (c ∷ f) h = ground (arith, split_last f h.1)

pub split_field : (f s : Bytes) → IsPlain f → split (f ++ (dollar ∷ s)) ≡ f ∷ split s
unfolding split
split_field [] s h = refl
split_field (c ∷ f) s h = ground (arith, split_field f s h.1)
