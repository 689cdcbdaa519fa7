-- ===== src/Go/Base64.antt =====
-- base64.RawStdEncoding: the standard alphabet without padding, and not strict.
pub mod RoundTrip
use Prim.Native.Nat.{◌/◌}
use merch.Base.{
  ℕ, ◌+◌, ◌-◌, ◌*◌, ◌%◌, ◌^◌, ◌<◌, ◌≡◌, ◌≢◌, refl, sym, ◌∙◌, ap, Bool, true, false, ◌&&◌, ◌||◌,
  Option, none, some, List, [], ◌∷◌, ◌++◌, ◌==◌, ltb, leb, if◌then◌else◌, arith,
}
use merch.Base.Lists.{All}
use merch.Go.Strings.{codes, IsPlain}
use merch.Go.Errors.{other, Result, ok, err, panic}
use merch.Postgres.Schema.{Bytes}

abbrev pub AreBytes : Bytes → Type 0
AreBytes = All (λ b. b < 256)

-- A…Z a…z 0…9 + /
unfoldable pub symbol : ℕ → ℕ
symbol i =
    if ltb i 26
    then 65 + i
    else if ltb i 52
    then 71 + i
    else if ltb i 62
    then i - 4
    else if i == 62
    then 43
    else 47

unfoldable pub sextet : ℕ → Option ℕ
sextet c =
    if leb 65 c && leb c 90
    then some (c - 65)
    else if leb 97 c && leb c 122
    then some (c - 71)
    else if leb 48 c && leb c 57
    then some (c + 4)
    else if c == 43
    then some 62
    else if c == 47
    then some 63
    else none

-- EncodeToString: three bytes at a time, and one or two that remain
unfoldable pub encode : Bytes → Bytes
encode [] = []
encode (a ∷ []) = let v = a * 2 ^ 16 in symbol (v / 2 ^ 18 % 64) ∷ symbol (v / 2 ^ 12 % 64) ∷ []
encode (a ∷ b ∷ []) =
    let v = a * 2 ^ 16 + b * 2 ^ 8 in
    symbol (v / 2 ^ 18 % 64) ∷ symbol (v / 2 ^ 12 % 64) ∷ symbol (v / 2 ^ 6 % 64) ∷ []
encode (a ∷ b ∷ c ∷ s) =
    let v = a * 2 ^ 16 + b * 2 ^ 8 + c in
    symbol (v / 2 ^ 18 % 64)
    ∷ symbol (v / 2 ^ 12 % 64)
    ∷ symbol (v / 2 ^ 6 % 64)
    ∷ symbol (v % 64)
    ∷ encode s

-- line ends are skipped wherever they stand
unfoldable pub strip : Bytes → Bytes
strip [] = []
strip (c ∷ s) = let rest = strip s in if c == 10 || c == 13 then rest else c ∷ rest

-- the values of the symbols, if all are of the alphabet
unfoldable pub sextets : Bytes → Option (List ℕ)
sextets [] = some []
sextets (c ∷ s) =
    let rest = sextets s in
    elim (sextet c) [ none ↦ none | some i ↦ elim rest [ none ↦ none | some is ↦ some (i ∷ is) ] ]

-- Bits that are left over are dropped; one symbol left over is an error.
unfoldable pub assemble : List ℕ → Option Bytes
assemble [] = some []
assemble (a ∷ []) = none
assemble (a ∷ b ∷ []) = let v = a * 2 ^ 18 + b * 2 ^ 12 in some ((v / 2 ^ 16 % 256) ∷ [])
assemble (a ∷ b ∷ c ∷ []) =
    let v = a * 2 ^ 18 + b * 2 ^ 12 + c * 2 ^ 6 in
    some ((v / 2 ^ 16 % 256) ∷ (v / 2 ^ 8 % 256) ∷ [])
assemble (a ∷ b ∷ c ∷ d ∷ s) =
    let v = a * 2 ^ 18 + b * 2 ^ 12 + c * 2 ^ 6 + d in
    elim (assemble s) [
      | none ↦ none
      | some bytes ↦ some ((v / 2 ^ 16 % 256) ∷ (v / 2 ^ 8 % 256) ∷ (v % 256) ∷ bytes)
    ]

abbrev or_corrupt : Option Bytes → Result Bytes
or_corrupt none = err (other "illegal base64 data")
or_corrupt (some s) = ok s

abbrev assembled : Option (List ℕ) → Option Bytes
assembled none = none
assembled (some is) = assemble is

-- DecodeString
unfoldable pub decode : Bytes → Result Bytes
decode s = or_corrupt (assembled (sextets (strip s)))

test : decode (codes "aGVsbG8") ≡ ok (codes "hello")
unfolding decode strip sextets sextet assemble
test = refl

sextet-symbol : (i : ℕ) → i < 64 → sextet (symbol i) ≡ some i
unfolding sextet symbol
sextet-symbol i h = ground arith

symbol_plain : (i : ℕ) → (symbol i ≢ 10) × (symbol i ≢ 13) × (symbol i ≢ 36)
unfolding symbol
symbol_plain i = ground arith
