-- ===== src/Purchases/Counting.antt =====
-- The groups of the query for a user's items, and their counts.
use merch.Base.{
  ℕ, ◌+◌, ◌*◌, String, ◌≡◌, refl, sym, ◌∙◌, Bool, true, false, List, [], ◌∷◌, ◌++◌, ◌==◌, str_eq,
  eq_iff, if◌then◌else◌, Bool-cases, inl, inr, arith,
}
use merch.Base.Lists.{All}
use merch.Postgres.Schema.{Uuid, ItemRow, PurchaseRow}
use merch.Purchases.Model.{ItemCountRow}
use merch.Purchases.Getter.{
  joined_items, join_items, same_group, add_to_group, group_rows, before, insert_row, order_rows,
}

-- the counts of an item, added up
unfoldable pub counted : Uuid → List ItemCountRow → ℕ
counted i [] = 0
counted i (r ∷ rs) = (if r.item_id == i then r.count else 0) + counted i rs

-- how often it was bought
unfoldable pub bought : Uuid → List PurchaseRow → ℕ
bought i [] = 0
bought i (p ∷ ps) = (if p.item_id == i then 1 else 0) + bought i ps

-- how many rows the item has
unfoldable pub stocked : Uuid → List ItemRow → ℕ
stocked i [] = 0
stocked i (x ∷ xs) = (if x.id == i then 1 else 0) + stocked i xs

counted-append :
    (i : Uuid) (xs ys : List ItemCountRow) → counted i (xs ++ ys) ≡ counted i xs + counted i ys
unfolding counted
counted-append i [] ys = omega arith
counted-append i (x ∷ xs) ys = omega (arith, counted-append i xs ys)

counted-joined_items :
    (i : Uuid) (p : PurchaseRow) (items : List ItemRow)
    → counted i (joined_items p items) ≡ (if p.item_id == i then stocked i items else 0)
unfolding counted joined_items stocked
counted-joined_items i p [] = ground arith
counted-joined_items i p (x ∷ items) = ground (arith, counted-joined_items i p items)

counted-join_items :
    (i : Uuid) (items : List ItemRow) (ps : List PurchaseRow)
    → counted i (join_items items ps) ≡ bought i ps * stocked i items
unfolding join_items bought counted
counted-join_items i items [] = omega arith
counted-join_items i items (p ∷ ps) =
    counted-append i (joined_items p items) (join_items items ps)
    ∙ grind (arith, counted-joined_items, counted-join_items i items ps)

counted-add_to_group :
    (i : Uuid) (x : ItemCountRow) (ys : List ItemCountRow)
    → counted i (add_to_group x ys) ≡ counted i (x ∷ ys)
unfolding counted add_to_group
counted-add_to_group i x [] = refl
counted-add_to_group i x (y ∷ ys) = ground (arith, counted-add_to_group i x ys)

counted-group_rows : (i : Uuid) (xs : List ItemCountRow) → counted i (group_rows xs) ≡ counted i xs
unfolding group_rows counted
counted-group_rows i [] = refl
counted-group_rows i (x ∷ xs) =
    counted-add_to_group i x (group_rows xs) ∙ ground (arith, counted-group_rows i xs)

same_group_sym : (x y : ItemCountRow) → same_group x y ≡ false → same_group y x ≡ false
same_group_sym x y h = elim (Bool-cases (same_group y x)) [
  | inr no_group ↦ no_group
  | inl same ↦
      let name : str_eq y.item_name x.item_name ≡ true = ground arith in
      let back =
        (eq_iff x.item_name y.item_name).1 (sym ((eq_iff y.item_name x.item_name).0 name)) in
      ground (arith, back)
]

-- No two rows are of one group.
abbrev pub IsGrouped : List ItemCountRow → Type 0
IsGrouped [] = Unit
IsGrouped (x ∷ xs) = All (λ y. same_group x y ≡ false) xs × IsGrouped xs

All-add_to_group :
    (z x : ItemCountRow) (ys : List ItemCountRow)
    → same_group z x ≡ false
    → All (λ y. same_group z y ≡ false) ys
    → All (λ y. same_group z y ≡ false) (add_to_group x ys)
unfolding add_to_group
All-add_to_group z x [] h k = (h, tt)
All-add_to_group z x (y ∷ ys) h k = elim (Bool-cases (same_group x y)) [
  | inl same ↦ rw same k
  | inr other ↦ rw other (k.0, All-add_to_group z x ys h k.1)
]

add_to_group-IsGrouped :
    (x : ItemCountRow) (ys : List ItemCountRow) → IsGrouped ys → IsGrouped (add_to_group x ys)
unfolding add_to_group
add_to_group-IsGrouped x [] k = (tt, tt)
add_to_group-IsGrouped x (y ∷ ys) k = elim (Bool-cases (same_group x y)) [
  | inl same ↦ rw same k
  | inr other ↦
      rw other
        (All-add_to_group y x ys (same_group_sym x y other) k.0, add_to_group-IsGrouped x ys k.1)
]

group_rows-IsGrouped : (xs : List ItemCountRow) → IsGrouped (group_rows xs)
unfolding group_rows
group_rows-IsGrouped [] = tt
group_rows-IsGrouped (x ∷ xs) = add_to_group-IsGrouped x (group_rows xs) (group_rows-IsGrouped xs)

module _ (collate : String → String → Bool) where
  counted-insert_row :
      (i : Uuid) (x : ItemCountRow) (ys : List ItemCountRow)
      → counted i (insert_row collate x ys) ≡ counted i (x ∷ ys)
  unfolding counted insert_row
  counted-insert_row i x [] = refl
  counted-insert_row i x (y ∷ ys) = ground (arith, counted-insert_row i x ys)

  counted-order_rows :
      (i : Uuid) (xs : List ItemCountRow) → counted i (order_rows collate xs) ≡ counted i xs
  unfolding order_rows counted
  counted-order_rows i [] = refl
  counted-order_rows i (x ∷ xs) =
      counted-insert_row i x (order_rows collate xs) ∙ ground (arith, counted-order_rows i xs)

  All-insert_row :
      (P : ItemCountRow → Type 0) (x : ItemCountRow) (ys : List ItemCountRow)
      → P x
      → All P ys
      → All P (insert_row collate x ys)
  unfolding insert_row
  All-insert_row P x [] h k = (h, tt)
  All-insert_row P x (y ∷ ys) h k = elim (Bool-cases (before collate x y)) [
    | inl first ↦ rw first (h, k)
    | inr later ↦ rw later (k.0, All-insert_row P x ys h k.1)
  ]

  All-order_rows :
      (P : ItemCountRow → Type 0) (xs : List ItemCountRow)
      → All P xs
      → All P (order_rows collate xs)
  unfolding order_rows
  All-order_rows P [] h = tt
  All-order_rows P (x ∷ xs) h =
      All-insert_row P x (order_rows collate xs) h.0 (All-order_rows P xs h.1)

  insert_row-IsGrouped :
      (x : ItemCountRow) (ys : List ItemCountRow)
      → All (λ y. same_group x y ≡ false) ys
      → IsGrouped ys
      → IsGrouped (insert_row collate x ys)
  unfolding insert_row
  insert_row-IsGrouped x [] h k = (tt, tt)
  insert_row-IsGrouped x (y ∷ ys) h k = elim (Bool-cases (before collate x y)) [
    | inl first ↦ rw first (h, k)
    | inr later ↦ rw later (
      All-insert_row (λ z. same_group y z ≡ false) x ys (same_group_sym x y h.0) k.0,
      insert_row-IsGrouped x ys h.1 k.1,
    )
  ]

  order_rows-IsGrouped : (xs : List ItemCountRow) → IsGrouped xs → IsGrouped (order_rows collate xs)
  unfolding order_rows
  order_rows-IsGrouped [] k = tt
  order_rows-IsGrouped (x ∷ xs) k =
      insert_row-IsGrouped x (order_rows collate xs)
        (All-order_rows (λ y. same_group x y ≡ false) xs k.0) (order_rows-IsGrouped xs k.1)

  -- The rows that the query returns for the purchases `ps`.
  abbrev pub counts_of : List ItemRow → List PurchaseRow → List ItemCountRow
  counts_of items ps = order_rows collate (group_rows (join_items items ps))

  pub counts_of-IsGrouped :
      (items : List ItemRow) (ps : List PurchaseRow) → IsGrouped (counts_of items ps)
  counts_of-IsGrouped items ps =
      order_rows-IsGrouped (group_rows (join_items items ps))
        (group_rows-IsGrouped (join_items items ps))

  pub counted-counts_of :
      (i : Uuid) (items : List ItemRow) (ps : List PurchaseRow)
      → counted i (counts_of items ps) ≡ bought i ps * stocked i items
  counted-counts_of i items ps =
      counted-order_rows i (group_rows (join_items items ps))
      ∙ counted-group_rows i (join_items items ps)
      ∙ counted-join_items i items ps
