-- ===== src/Go/Base64/RoundTrip.antt =====
-- What was encoded decodes to the same bytes.
use Prim.Native.Nat.{◌/◌}
use merch.Base.{ℕ, ◌+◌, ◌*◌, ◌%◌, ◌^◌, ◌<◌, ◌≡◌, refl, some, List, [], ◌∷◌, map, arith}
use merch.Base.Lists.{All}
use merch.Go.Errors.{ok}
use merch.Go.Strings.{IsPlain}
use merch.Go.Base64.{
  AreBytes, symbol, encode, strip, sextets, assemble, decode, sextet-symbol, symbol_plain,
}
use merch.Postgres.Schema.{Bytes}

-- The groups of six bits.
sixes : Bytes → List ℕ
sixes [] = []
sixes (a ∷ []) = let v = a * 2 ^ 16 in (v / 2 ^ 18 % 64) ∷ (v / 2 ^ 12 % 64) ∷ []
sixes (a ∷ b ∷ []) =
    let v = a * 2 ^ 16 + b * 2 ^ 8 in (v / 2 ^ 18 % 64) ∷ (v / 2 ^ 12 % 64) ∷ (v / 2 ^ 6 % 64) ∷ []
sixes (a ∷ b ∷ c ∷ s) =
    let v = a * 2 ^ 16 + b * 2 ^ 8 + c in
    (v / 2 ^ 18 % 64) ∷ (v / 2 ^ 12 % 64) ∷ (v / 2 ^ 6 % 64) ∷ (v % 64) ∷ sixes s

abbrev AreSextets : List ℕ → Type 0
AreSextets = All (λ i. i < 64)

encode_lem : (s : Bytes) → encode s ≡ map symbol (sixes s)
unfolding encode sixes
encode_lem [] = refl
encode_lem (a ∷ []) = refl
encode_lem (a ∷ b ∷ []) = refl
encode_lem (a ∷ b ∷ c ∷ s) = rw (encode_lem s) refl

sixes-AreSextets : (s : Bytes) → AreSextets (sixes s)
unfolding sixes
sixes-AreSextets [] = tt
sixes-AreSextets (a ∷ []) = omega arith
sixes-AreSextets (a ∷ b ∷ []) = omega arith
sixes-AreSextets (a ∷ b ∷ c ∷ s) =
    (omega arith, (omega arith, (omega arith, (omega arith, sixes-AreSextets s))))

-- symbols are neither line ends nor dollars
strip-symbols : (is : List ℕ) → strip (map symbol is) ≡ map symbol is
unfolding strip
strip-symbols [] = refl
strip-symbols (i ∷ is) = ground (arith, strip-symbols is, symbol_plain i)

symbols-IsPlain : (is : List ℕ) → IsPlain (map symbol is)
symbols-IsPlain [] = tt
symbols-IsPlain (i ∷ is) = ((symbol_plain i).2, symbols-IsPlain is)

pub encode-IsPlain : (s : Bytes) → IsPlain (encode s)
encode-IsPlain s = rw (encode_lem s) (symbols-IsPlain (sixes s))

sextets-symbols : (is : List ℕ) → AreSextets is → sextets (map symbol is) ≡ some is
unfolding sextets
sextets-symbols [] h = refl
sextets-symbols (i ∷ is) h = rw (sextets, sextet-symbol i h.0, sextets-symbols is h.1) refl

assemble-sixes : (s : Bytes) → AreBytes s → assemble (sixes s) ≡ some s
unfolding assemble sixes
assemble-sixes [] h = refl
assemble-sixes (a ∷ []) h = ground arith
assemble-sixes (a ∷ b ∷ []) h = ground arith
assemble-sixes (a ∷ b ∷ c ∷ s) h = ground (arith, assemble-sixes s h.1.1.1)

pub decode-encode : (s : Bytes) → AreBytes s → decode (encode s) ≡ ok s
unfolding decode
decode-encode s h =
    rw
      (
        encode_lem s,
        strip-symbols (sixes s),
        sextets-symbols (sixes s) (sixes-AreSextets s),
        assemble-sixes s h,
      )
      refl
