-- ===== src/Postgres/Rows.antt =====
-- pgx.CollectRows and pgx.CollectExactlyOneRow, over the rows that a query returned.
use merch.Base.{List, [], ◌∷◌}
use merch.Go.Errors.{sentinel, no_rows, too_many_rows, Result, ok, err, panic}

-- the value of a row, and then those of the rows that follow
abbrev pub and_rest : {B : Type 0} → Result B → Result (List B) → Result (List B)
and_rest (ok b) (ok bs) = ok (b ∷ bs)
and_rest (ok b) (err e) = err e
and_rest (ok b) panic = panic
and_rest (err e) r = err e
and_rest panic r = panic

module _ {A B : Type 0} where
  unfoldable pub collect_rows : (A → Result B) → List A → Result (List B)
  collect_rows f [] = ok []
  collect_rows f (x ∷ xs) = and_rest (f x) (collect_rows f xs)

  -- a second row is noticed after the first one has been scanned
  only : Result B → List A → Result B
  only (ok b) [] = ok b
  only (ok b) (x ∷ xs) = err (sentinel too_many_rows)
  only (err e) xs = err e
  only panic xs = panic

  unfoldable pub collect_exactly_one_row : (A → Result B) → List A → Result B
  unfolding only
  collect_exactly_one_row f [] = err (sentinel no_rows)
  collect_exactly_one_row f (x ∷ xs) = only (f x) xs
