-- ===== src/Base/Reorderings.antt =====
-- Lists that hold the same entries in some order: the library's `Perm` with its steps as data, so
-- that a predicate that is not a proposition carries over.
use merch.Base.{◌≡◌, refl, ap, ◌∙◌, suc, List, ◌∷◌, map}
use merch.Base.Lists.{All, length}

pub data IsReordered {A : Type 0} : List A → List A → Type 0 where
  unchanged : {xs : List A} → IsReordered xs xs
  keep : (x : A) {xs ys : List A} → IsReordered xs ys → IsReordered (x ∷ xs) (x ∷ ys)
  exchange : (x y : A) (xs : List A) → IsReordered (x ∷ y ∷ xs) (y ∷ x ∷ xs)
  next : {xs ys zs : List A} → IsReordered xs ys → IsReordered ys zs → IsReordered xs zs

pub map-IsReordered :
    {A B : Type 0} (f : A → B) {xs ys : List A}
    → IsReordered xs ys
    → IsReordered (map f xs) (map f ys)
map-IsReordered f unchanged = unchanged
map-IsReordered f (keep x d) = keep (f x) (map-IsReordered f d)
map-IsReordered f (exchange x y xs) = exchange (f x) (f y) (map f xs)
map-IsReordered f (next d d') = next (map-IsReordered f d) (map-IsReordered f d')

-- What holds of all entries holds in any order.
pub All-IsReordered :
    {A : Type 0} (P : A → Type 0) {xs ys : List A} → IsReordered xs ys → All P xs → All P ys
All-IsReordered P unchanged h = h
All-IsReordered P (keep x d) h = (h.0, All-IsReordered P d h.1)
All-IsReordered P (exchange x y xs) h = (h.1.0, (h.0, h.1.1))
All-IsReordered P (next d d') h = All-IsReordered P d' (All-IsReordered P d h)

pub length-IsReordered : {A : Type 0} {xs ys : List A} → IsReordered xs ys → length xs ≡ length ys
length-IsReordered unchanged = refl
length-IsReordered (keep x d) = ap suc (length-IsReordered d)
length-IsReordered (exchange x y xs) = refl
length-IsReordered (next d d') = length-IsReordered d ∙ length-IsReordered d'
