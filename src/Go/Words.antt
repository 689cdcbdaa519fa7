-- ===== src/Go/Words.antt =====
-- Go's `int` on a 64-bit platform: addition and subtraction wrap around.
use merch.Base.{◌+◌, ◌-◌, ◌%◌, ◌^◌, ◌≡◌, arith, ltb, if◌then◌else◌}
use merch.Base.Int.{ℤ, pos, negsuc, pos_part, neg_part, ◌≤ℤ◌}

-- The two's complement value of the low 64 bits.
unfoldable pub wrap64 : ℤ → ℤ
wrap64 z =
    let bits = (pos_part z + 2 ^ 65 - neg_part z) % 2 ^ 64 in
    if ltb bits (2 ^ 63) then pos bits else negsuc (2 ^ 64 - bits - 1)

abbrev pub InInt : ℤ → Type 0
InInt z = (negsuc (2 ^ 63 - 1) ≤ℤ z) × (z ≤ℤ pos (2 ^ 63 - 1))

pub wrap64-InInt : (z : ℤ) → InInt (wrap64 z)
unfolding wrap64
wrap64-InInt z = ground arith

pub wrap64_lem : (z : ℤ) → InInt z → wrap64 z ≡ z
unfolding wrap64
wrap64_lem (pos n) h = ground arith
wrap64_lem (negsuc n) h = ground arith
