-- ===== src/Users/Hashing.antt =====
-- What the rest of the program takes from `user.PasswordHasher`.
use merch.Base.{ℕ, ◌≡◌}
use merch.Go.Errors.{Result, ok}
use merch.Postgres.Schema.{Bytes}

-- `hash n p` is the hash of `p` with the n-th salt.
pub record PasswordHasher : Type 0 where
  pub hash : ℕ → Bytes → Result Bytes
  pub verify : Bytes → Bytes → Result Unit
  pub verify-hash : (n : ℕ) (p h : Bytes) → hash n p ≡ ok h → verify p h ≡ ok tt
