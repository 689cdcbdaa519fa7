-- ===== src/Interleaving/Plans.antt =====
-- The balances that a session computes come from the rows that it has locked.
use merch.Base.{
  ℕ, ◌≡◌, refl, sym, ap, subst, ◌⊎◌, inl, inr, true, Option, none, some, List, [], ◌∷◌, map, ◌==◌,
  ==_eq, Bool-cases, of_then, of_else, Option-cases, arith,
}
use merch.Base.Int.{ℤ, pos, ◌+ℤ◌, ◌-ℤ◌, ltb_ℤ}
use merch.Base.Lists.{All, any}
use merch.Go.Errors.{Result, ok}
use merch.Go.Results.{>>=-eq-ok, ok_value}
use merch.Go.Words.{wrap64}
use merch.Postgres.Schema.{Uuid, UserRow}
use merch.Users.Model.{User, user_of}
use merch.Users.Selection.{collect_rows-row_to_user}
use merch.Users.Getter.{exactly_one_user}
use merch.Items.{Item}
use merch.Transfers.Transferer.{
  UsersMap, user_at, users_map, check_ids, checked_map, users_by_ids, deref,
}
use merch.Interleaving.{Job, sending, buying, selected_ids, plan, Database}
use merch.Interleaving.Facts.{IsLocked, IsHeld, Planned, debit, credit}

-- A row of the list that a user is made of.
abbrev FromRow : (UserRow → Type 0) → Uuid → User → Type 0
FromRow P id u = (r : UserRow) × P r × (r.id ≡ id) × (u ≡ user_of r)

user_at-FromRow :
    (P : UserRow → Type 0) (id : Uuid) (u : User) (rows : List UserRow) (m : UsersMap)
    → All P rows
    → user_at (users_map m (map user_of rows)) id ≡ some u
    → FromRow P id u ⊎ (user_at m id ≡ some u)
unfolding user_at users_map
user_at-FromRow P id u [] m h e = inr e
user_at-FromRow P id u (r ∷ rows) m h e =
    elim (user_at-FromRow P id u rows ((r.id, user_of r) ∷ m) h.1 e) [
      | inl x ↦ inl x
      | inr f ↦ elim (Bool-cases (r.id == id)) [
        | inl same ↦ inl (r, h.0, ==_eq r.id id same, ground arith)
        | inr other ↦ inr (ground arith)
      ]
    ]

check_ids-same : (m n : UsersMap) (ids : List Uuid) → check_ids m ids ≡ ok n → m ≡ n
unfolding check_ids
check_ids-same m n [] e = ok_value e
check_ids-same m n (id ∷ ids) e = elim (Option-cases (user_at m id)) [
  | inl f ↦ ground arith
  | inr (u, f) ↦ check_ids-same m n ids (ground arith)
]

-- A user in the map is a row that the query has returned.
users_by_ids-FromRow :
    (P : UserRow → Type 0) (ids : List Uuid) (rows : List UserRow) (m : UsersMap) (id : Uuid)
    (u : User)
    → All P rows
    → users_by_ids ids rows ≡ ok m
    → user_at m id ≡ some u
    → FromRow P id u
unfolding users_by_ids user_at
users_by_ids-FromRow P ids rows m id u h e f =
    let g : check_ids (users_map [] (map user_of rows)) ids ≡ ok m =
      subst (λ x. checked_map ids x ≡ ok m) (collect_rows-row_to_user rows) e in
    elim (user_at-FromRow P id u rows [] h (rw (check_ids-same _ m ids g) f)) [
      | inl x ↦ x
      | inr bad ↦ cc
    ]

deref-ok : (o : Option User) (u : User) → deref o ≡ ok u → o ≡ some u
unfolding deref
deref-ok none u e = cc
deref-ok (some v) u e = ap some (ok_value e)

FromRow-IsLocked :
    (i : ℕ) (db : Database) (j : Job) (id : Uuid) (u : User)
    → FromRow (IsHeld i db j) id u
    → (r : UserRow) × IsLocked i db id r × (u ≡ user_of r)
FromRow-IsLocked i db j id u (r, h, e, f) = (r, subst (λ x. IsLocked i db x r) e h.1, f)

sent_balances :
    (dst src : Uuid) (amount : ℤ) (su du : User) (s r : UserRow) (bs : List (Uuid × ℤ))
    → ◌≡◌ {A = Result (List (Uuid × ℤ))}
        (ok ((src, wrap64 (su.balance -ℤ amount)) ∷ (dst, wrap64 (du.balance +ℤ amount)) ∷ []))
        (ok bs)
    → su ≡ user_of s
    → du ≡ user_of r
    → bs ≡ (src, debit s amount) ∷ (dst, credit r amount) ∷ []
sent_balances dst src amount su du s r bs f es er = rw (sym (ok_value f), es, er) refl

plan_sending :
    (i : ℕ) (db : Database) (dst src : Uuid) (amount : ℤ) (rows : List UserRow)
    (bs : List (Uuid × ℤ))
    → All (IsHeld i db (sending dst src amount)) rows
    → plan (sending dst src amount) rows ≡ ok bs
    → Planned i db (sending dst src amount) bs
unfolding plan
plan_sending i db dst src amount rows bs h e =
    let ids = src ∷ dst ∷ [] in
    let (m, e1, f1) = >>=-eq-ok (users_by_ids ids rows) _ bs e in
    let (su, e2, f2) = >>=-eq-ok (deref (user_at m src)) _ bs f1 in
    elim (Bool-cases (ltb_ℤ (wrap64 (su.balance -ℤ amount)) (pos 0))) [
      | inl short ↦ let bad = of_then _ _ _ _ short f2 in let absurdity : ⊥ = cc in absurd absurdity
      | inr enough ↦
          let (du, e3, f3) = >>=-eq-ok (deref (user_at m dst)) _ bs (of_else _ _ _ _ enough f2) in
          let held = λ (id : Uuid) (u : User) (x : user_at m id ≡ some u).
            FromRow-IsLocked i db (sending dst src amount) id u (
              users_by_ids-FromRow (IsHeld i db (sending dst src amount)) ids rows m id u h e1 x) in
          let (s, ls, es) = held src su (deref-ok _ su e2) in
          let (r, lr, er) = held dst du (deref-ok _ du e3) in
          (s, r, ls, lr, sent_balances dst src amount su du s r bs f3 es er)
    ]

only_id : (a b : Uuid) → any (λ id. a == id) (b ∷ []) ≡ true → a ≡ b
only_id a b e = ground arith

plan_buying :
    (i : ℕ) (db : Database) (item : Item) (user : Uuid) (rows : List UserRow) (bs : List (Uuid × ℤ))
    → All (IsHeld i db (buying item user)) rows
    → plan (buying item user) rows ≡ ok bs
    → Planned i db (buying item user) bs
unfolding plan exactly_one_user selected_ids
plan_buying i db item user [] bs h e = cc
plan_buying i db item user (r ∷ []) bs h e =
    elim (Bool-cases (ltb_ℤ (debit r item.price) (pos 0))) [
      | inl short ↦ let bad = of_then _ _ _ _ short e in let absurdity : ⊥ = cc in absurd absurdity
      | inr enough ↦ (
        r,
        subst (λ id. IsLocked i db id r) (only_id r.id user h.0.0) h.0.1,
        sym (ok_value (of_else _ _ _ _ enough e)),
      )
    ]
plan_buying i db item user (r ∷ x ∷ rows) bs h e = cc

pub plan-Planned :
    (i : ℕ) (db : Database) (j : Job) (rows : List UserRow) (bs : List (Uuid × ℤ))
    → All (IsHeld i db j) rows
    → plan j rows ≡ ok bs
    → Planned i db j bs
plan-Planned i db (sending dst src amount) rows bs h e =
    plan_sending i db dst src amount rows bs h e
plan-Planned i db (buying item user) rows bs h e = plan_buying i db item user rows bs h e
