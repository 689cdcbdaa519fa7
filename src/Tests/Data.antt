-- ===== src/Tests/Data.antt =====
-- Two users, an item, a quiet server, and one where another client registers a user in between.
use merch.Base.{
  Bool, true, false, ◌&&◌, ap, subst, ◌+◌, ◌*◌, ◌≡◌, refl, List, [], ◌∷◌, none, ◌==◌, if◌then◌else◌,
  arith,
}
use merch.Base.Reorderings.{IsReordered, unchanged, exchange}
use merch.Base.Int.{pos, int_laws}
use merch.Go.Errors.{Result, ok, err, panic, sentinel, password_not_match}
use merch.Postgres.Schema.{Bytes, UserRow, ItemRow, Tables}
use merch.Postgres.Session.{Env, World, delivered}
use merch.Users.Creator.{RowOrder}
use merch.Users.Hashing.{PasswordHasher}
use merch.Ledger.Accounts.{find, find_username, sent, received, spent}
use merch.Ledger.Invariant.{IsConsistent}
use merch.Ledger.Change.{registration, registered}
use merch.Ledger.Preservation.{Change-IsConsistent}

abbrev pub alice : UserRow
alice = record { id = 1; username = "alice"; password_hash = 1 ∷ []; balance = pos 1000 }

abbrev pub bob : UserRow
bob = record { id = 2; username = "bob"; password_hash = 2 ∷ []; balance = pos 1000 }

abbrev pub cup : ItemRow
cup = record { id = 5; name = "cup"; price = pos 20 }

abbrev pub shop : Tables
shop = record { users = []; items = cup ∷ []; transfers = []; purchases = [] }

abbrev pub two_users : Tables
two_users = registered bob (registered alice shop)

pub shop-IsConsistent : IsConsistent shop
unfolding find sent received spent
shop-IsConsistent = record {
  keys = tt;
  balances = λ id. (omega int_laws, omega int_laws);
  prices = ((omega int_laws, omega int_laws), tt);
  settled = λ id. omega int_laws;
}

pub two_users-IsConsistent : IsConsistent two_users
unfolding find find_username
two_users-IsConsistent =
    Change-IsConsistent (registration bob refl refl refl refl)
      (Change-IsConsistent (registration alice refl refl refl refl) shop-IsConsistent)

abbrev pub quiet : Env
quiet = record {
  reply = λ n. delivered;
  arrive = λ n t. t;
  uuid = λ n k. 1000 + n * 10 + k;
  now = λ n. n;
}

abbrev pub start : World
start = record { tables = two_users; pending = none; tick = 0 }

abbrev same_bytes : Bytes → Bytes → Bool
same_bytes [] [] = true
same_bytes (a ∷ x) (b ∷ y) = a == b && same_bytes x y
same_bytes [] (b ∷ y) = false
same_bytes (a ∷ x) [] = false

pub same_bytes_refl : (x : Bytes) → same_bytes x x ≡ true
same_bytes_refl [] = refl
same_bytes_refl (a ∷ x) = ground (arith, same_bytes_refl x)

pub hash_parts : (p h : Bytes) → ◌≡◌ {A = Result Bytes} (ok p) (ok h) → p ≡ h
hash_parts p h e = ap bytes e
  where
    bytes : Result Bytes → Bytes
    bytes (ok x) = x
    bytes (err y) = p
    bytes panic = p

abbrev check : Bool → Result Unit
check b = if b then ok tt else err (sentinel password_not_match)

-- A password is its own hash.
abbrev pub plain_hasher : PasswordHasher
plain_hasher = record {
  hash = λ n p. ok p;
  verify = λ p h. check (same_bytes p h);
  verify-hash = λ n p h e.
      subst (λ x. check (same_bytes p x) ≡ ok tt) (hash_parts p h e) (ap check (same_bytes_refl p));
}

-- Every list begins with its second entry.
abbrev exchanged : {A : Type 0} → List A → List A
exchanged [] = []
exchanged (x ∷ []) = x ∷ []
exchanged (x ∷ y ∷ xs) = y ∷ x ∷ xs

pub exchanged-IsReordered : {A : Type 0} (xs : List A) → IsReordered xs (exchanged xs)
exchanged-IsReordered [] = unchanged
exchanged-IsReordered (x ∷ []) = unchanged
exchanged-IsReordered (x ∷ y ∷ xs) = exchange x y xs

-- The temporary table is scanned out of order.
abbrev pub second_first : RowOrder
second_first = record {
  scan = λ n ps. exchanged ps;
  returning = λ n rows. rows;
  scan-IsReordered = λ n ps. exchanged-IsReordered ps;
  returning-IsReordered = λ n rows. unchanged;
}

abbrev pub carol : UserRow
carol = record { id = 3; username = "carol"; password_hash = 3 ∷ []; balance = pos 1000 }

pub with_carol-IsConsistent : IsConsistent (registered carol two_users)
unfolding find find_username
with_carol-IsConsistent =
    Change-IsConsistent (registration carol refl refl refl refl) two_users-IsConsistent

-- Another client registers carol before the second request.
abbrev pub busy : Env
busy = record {
  reply = λ n. delivered;
  arrive = λ n t. if n == 1 then registered carol t else t;
  uuid = λ n k. 1000 + n * 10 + k;
  now = λ n. n;
}
