-- ===== src/Transfers/Found.antt =====
-- The users that `getUsersByIDsForUpdate` returns.
use merch.Base.{
  ◌≡◌, refl, Bool, true, Option, none, some, List, [], ◌∷◌, map, arith, ◌==◌, Option-cases, inl,
  inr, ap,
}
use merch.Base.Lists.{filter, any}
use merch.Postgres.Schema.{Uuid, UserRow, Tables}
use merch.Postgres.Session.{Env, World, Defaults, done, tx}
use merch.Postgres.Triples.{Ends}
use merch.Postgres.Transactions.{Yields, InTx, Kept, done_parts, query_then-Ends}
use merch.Users.Model.{User, user_of}
use merch.Users.Selection.{collect_rows-row_to_user}
use merch.Ledger.Accounts.{find}
use merch.Ledger.Invariant.{HasDistinctKeys}
use merch.Transfers.Transferer.{
  UsersMap, user_at, users_map, check_ids, users_by_ids, select_users_by_ids,
  get_users_by_ids_for_update,
}

abbrev pub pick : Option UserRow → Option User → Option User
pick none o = o
pick (some u) o = some (user_of u)

-- Where ids are distinct, the map holds for an id that the query asked for just its row.
pub user_at-users_map :
    (p : Uuid → Bool) (id : Uuid) (us : List UserRow) (m : UsersMap)
    → p id ≡ true
    → HasDistinctKeys us
    → user_at (users_map m (map user_of (filter (λ u. p u.id) us))) id
      ≡ pick (find id us) (user_at m id)
unfolding user_at users_map filter find
user_at-users_map p id [] m h k = refl
user_at-users_map p id (u ∷ us) m h k = ground (
  arith,
  user_at-users_map p id us m h k.2,
  user_at-users_map p id us ((u.id, user_of u) ∷ m) h k.2,
)

abbrev pub FoundBoth : Uuid → Uuid → Tables → UsersMap → Tables → Type 0
FoundBoth src dst t m t' =
    (t' ≡ t)
    × ((s : UserRow) × (d : UserRow) × (find src t.users ≡ some s)
        × (find dst t.users ≡ some d)
        × (user_at m src ≡ some (user_of s))
        × (user_at m dst ≡ some (user_of d)))

check_ids-Yields :
    (src dst : Uuid) (t t' : Tables) (m : UsersMap)
    → t' ≡ t
    → user_at m src ≡ pick (find src t.users) none
    → user_at m dst ≡ pick (find dst t.users) none
    → Yields (λ m. FoundBoth src dst t m t') (check_ids m (src ∷ dst ∷ []))
unfolding check_ids
check_ids-Yields src dst t t' m e hs hd = elim (Option-cases (find src t.users)) [
  | inl no_src ↦
      let h : user_at m src ≡ none = cc (hs, ap (λ o. pick o none) no_src) in rw (h, check_ids) tt
  | inr (s, es) ↦
      let hs' : user_at m src ≡ some (user_of s) = cc (hs, ap (λ o. pick o none) es) in
      elim (Option-cases (find dst t.users)) [
        | inl no_dst ↦
            let h : user_at m dst ≡ none = cc (hd, ap (λ o. pick o none) no_dst) in
            rw (hs', h, check_ids) tt
        | inr (d, ed) ↦
            let hd' : user_at m dst ≡ some (user_of d) = cc (hd, ap (λ o. pick o none) ed) in
            rw (hs', hd', check_ids) (e, (s, d, es, ed, hs', hd'))
      ]
]

-- The map of the rows that the query selects.
selected_map-Yields :
    (src dst : Uuid) (t t' : Tables)
    → HasDistinctKeys t.users
    → t' ≡ t
    → Yields
        (λ m. FoundBoth src dst t m t')
        (check_ids
          (users_map []
            (map user_of (filter (λ u. any (λ id. u.id == id) (src ∷ dst ∷ [])) t.users)))
          (src ∷ dst ∷ []))
unfolding user_at
selected_map-Yields src dst t t' k e =
    let p = λ (i : Uuid). any (λ id. i == id) (src ∷ dst ∷ []) in
    check_ids-Yields src dst t t' _ e (user_at-users_map p src t.users [] (ground arith) k)
      (user_at-users_map p dst t.users [] (ground arith) k)

users_by_ids-Yields :
    (src dst : Uuid) (d : Defaults) (t : Tables) (rows : List UserRow) (t' : Tables)
    → HasDistinctKeys t.users
    → select_users_by_ids (src ∷ dst ∷ []) d t ≡ done rows t'
    → Yields (λ m. FoundBoth src dst t m t') (users_by_ids (src ∷ dst ∷ []) rows)
unfolding select_users_by_ids users_by_ids
users_by_ids-Yields src dst d t rows t' k e =
    let same = done_parts _ rows t t' e in
    rw (same.0, users_by_ids, collect_rows-row_to_user) (selected_map-Yields src dst t t' k same.1)

-- It returns only if both users exist, with the rows that the transaction has locked.
pub get_users_by_ids_for_update-Ends :
    (env : Env) (src dst : Uuid) (w : World) (t : Tables)
    → HasDistinctKeys t.users
    → w.pending ≡ some t
    → Ends
        (InTx w (FoundBoth src dst t))
        (Kept w)
        (get_users_by_ids_for_update env tx (src ∷ dst ∷ []) w)
unfolding get_users_by_ids_for_update
get_users_by_ids_for_update-Ends env src dst w t k e =
    query_then-Ends env (select_users_by_ids (src ∷ dst ∷ [])) (users_by_ids (src ∷ dst ∷ [])) w t
      (FoundBoth src dst t) e (λ rows t' h. users_by_ids-Yields src dst _ t rows t' k h)
