-- ===== src/Transfers/Ordering.antt =====
-- The order and the joins of the query for a user's transfers.
use mathlib.Core.List.{Perm}
use mathlib.Core.List.Perm
use merch.Base.{
  String, ◌≡◌, refl, ap, ◌∙◌, true, false, Option, none, some, List, [], ◌∷◌, map, if◌then◌else◌,
  Bool-cases, inl, inr, arith,
}
use merch.Base.Lists.{All}
use merch.Postgres.Schema.{Uuid, UserRow, TransferRow}
use merch.Users.Selection.{filter_one, filter-none}
use merch.Ledger.Accounts.{find}
use merch.Ledger.Invariant.{HasDistinctKeys}
use merch.Transfers.Model.{RowWithUsernames}
use merch.Transfers.Getter.{
  joined_usernames, with_src, with_dst, join_usernames, before, insert_row, order_rows,
}

-- the transfers alone, put in order in the same way
insert_transfer_row : TransferRow → List TransferRow → List TransferRow
insert_transfer_row x [] = x ∷ []
insert_transfer_row x (y ∷ ys) = if before x y then x ∷ y ∷ ys else y ∷ insert_transfer_row x ys

unfoldable pub in_order : List TransferRow → List TransferRow
unfolding insert_transfer_row
in_order [] = []
in_order (x ∷ xs) = insert_transfer_row x (in_order xs)

-- Every transfer comes before the ones that follow it.
abbrev pub IsOrdered : List TransferRow → Type 0
IsOrdered [] = Unit
IsOrdered (x ∷ xs) = All (λ y. before x y ≡ true) xs × IsOrdered xs

before_total : (x y : TransferRow) → before x y ≡ false → before y x ≡ true
unfolding before
before_total x y h = ground arith

before_trans : (x y z : TransferRow) → before x y ≡ true → before y z ≡ true → before x z ≡ true
unfolding before
before_trans x y z h k = ground arith

All-before :
    (x y : TransferRow) (zs : List TransferRow)
    → before x y ≡ true
    → All (λ z. before y z ≡ true) zs
    → All (λ z. before x z ≡ true) zs
All-before x y [] h k = tt
All-before x y (z ∷ zs) h k = (before_trans x y z h k.0, All-before x y zs h k.1)

All-insert_transfer_row :
    (P : TransferRow → Type 0) (x : TransferRow) (ys : List TransferRow)
    → P x
    → All P ys
    → All P (insert_transfer_row x ys)
unfolding insert_transfer_row
All-insert_transfer_row P x [] h k = (h, tt)
All-insert_transfer_row P x (y ∷ ys) h k = elim (Bool-cases (before x y)) [
  | inl first ↦ rw first (h, k)
  | inr later ↦ rw later (k.0, All-insert_transfer_row P x ys h k.1)
]

insert_transfer_row-IsOrdered :
    (x : TransferRow) (ys : List TransferRow) → IsOrdered ys → IsOrdered (insert_transfer_row x ys)
unfolding insert_transfer_row
insert_transfer_row-IsOrdered x [] h = (tt, tt)
insert_transfer_row-IsOrdered x (y ∷ ys) h = elim (Bool-cases (before x y)) [
  | inl first ↦ rw first ((first, All-before x y ys first h.0), h)
  | inr later ↦ rw later (
    All-insert_transfer_row (λ z. before y z ≡ true) x ys (before_total x y later) h.0,
    insert_transfer_row-IsOrdered x ys h.1,
  )
]

pub in_order-IsOrdered : (xs : List TransferRow) → IsOrdered (in_order xs)
unfolding in_order
in_order-IsOrdered [] = tt
in_order-IsOrdered (x ∷ xs) = insert_transfer_row-IsOrdered x (in_order xs) (in_order-IsOrdered xs)

insert_transfer_row-Perm :
    (x : TransferRow) (ys : List TransferRow) → Perm (insert_transfer_row x ys) (x ∷ ys)
unfolding insert_transfer_row
insert_transfer_row-Perm x [] = Perm.refl (x ∷ [])
insert_transfer_row-Perm x (y ∷ ys) = elim (Bool-cases (before x y)) [
  | inl first ↦ rw first (Perm.refl (x ∷ y ∷ ys))
  | inr later ↦
      rw later (Perm.trans (Perm.cons y (insert_transfer_row-Perm x ys)) (Perm.swap x y ys))
]

pub in_order-Perm : (xs : List TransferRow) → Perm (in_order xs) xs
unfolding in_order
in_order-Perm [] = Perm.refl []
in_order-Perm (x ∷ xs) =
    Perm.trans (insert_transfer_row-Perm x (in_order xs)) (Perm.cons x (in_order-Perm xs))

-- the name in a row that may be missing
abbrev name_of : Option UserRow → Option String
name_of none = none
name_of (some u) = some u.username

abbrev pub named : List UserRow → TransferRow → RowWithUsernames
named us x = record {
  row = x;
  dst_username = name_of (find x.dst_user_id us);
  src_username = name_of (find x.src_user_id us);
}

joined_usernames_lem :
    (id : Uuid) (us : List UserRow)
    → HasDistinctKeys us
    → joined_usernames id us ≡ name_of (find id us) ∷ []
unfolding joined_usernames
joined_usernames_lem id us k = go (find id us) refl
  where
    go : (o : Option UserRow) → find id us ≡ o → joined_usernames id us ≡ name_of o ∷ []
    go none e = rw (joined_usernames, filter-none id us e) refl
    go (some u) e = rw (joined_usernames, filter_one id us u k e) refl

-- Where ids are distinct, the joins give each transfer one row.
join_usernames_lem :
    (us : List UserRow) (xs : List TransferRow)
    → HasDistinctKeys us
    → join_usernames us xs ≡ map (named us) xs
unfolding join_usernames with_dst with_src
join_usernames_lem us [] k = refl
join_usernames_lem us (x ∷ xs) k =
    rw
      (
        joined_usernames_lem x.dst_user_id us k,
        joined_usernames_lem x.src_user_id us k,
        join_usernames_lem us xs k,
      )
      refl

insert_row-map :
    (us : List UserRow) (x : TransferRow) (ys : List TransferRow)
    → insert_row (named us x) (map (named us) ys) ≡ map (named us) (insert_transfer_row x ys)
unfolding insert_row insert_transfer_row
insert_row-map us x [] = refl
insert_row-map us x (y ∷ ys) = elim (Bool-cases (before x y)) [
  | inl first ↦ rw first refl
  | inr later ↦ rw (later, insert_row-map us x ys) refl
]

order_rows-map :
    (us : List UserRow) (xs : List TransferRow)
    → order_rows (map (named us) xs) ≡ map (named us) (in_order xs)
unfolding order_rows in_order
order_rows-map us [] = refl
order_rows-map us (x ∷ xs) = rw (order_rows-map us xs, insert_row-map us x (in_order xs)) refl

-- The rows that the query returns.
pub order_rows-join_usernames :
    (us : List UserRow) (xs : List TransferRow)
    → HasDistinctKeys us
    → order_rows (join_usernames us xs) ≡ map (named us) (in_order xs)
order_rows-join_usernames us xs k =
    ap order_rows (join_usernames_lem us xs k) ∙ order_rows-map us xs
