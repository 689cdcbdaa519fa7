-- ===== src/Setup/Users/Rows.antt =====
-- The rows of a load test's users, as CreateUsers leaves them.
use merch.Base.{ℕ, zero, suc, ◌+◌, String, ◌≡◌, refl, ap, none, some, List, [], ◌∷◌, map, arith}
use merch.Base.Lists.{All, length}
use merch.Postgres.Schema.{Uuid, Bytes, UserRow, Tables}
use merch.Postgres.Session.{Defaults}
use merch.Users.Creator.{DataCreatorCreateUserParams, default_balance, new_user_row}
use merch.Users.Batch.Rows.{Batch, empty, next}
use merch.Ledger.Accounts.{find}
use merch.Ledger.Change.{registered}
use merch.Setup.Users.{nth_username, create_user_params}

find-registered :
    (id : Uuid) (r u : UserRow) (t : Tables)
    → find r.id t.users ≡ none
    → find id t.users ≡ some u
    → find id (registered r t).users ≡ some u
unfolding find
find-registered id r u t fresh e = ground (arith, fresh, e)

-- Rows that are there stay, whatever the batch adds.
Batch-find :
    {d : Defaults} {n : ℕ} {ps : List DataCreatorCreateUserParams} {t t' : Tables}
    {rows : List UserRow} (id : Uuid) (u : UserRow)
    → Batch d n ps t rows t'
    → find id t.users ≡ some u
    → find id t'.users ≡ some u
Batch-find id u empty e = e
Batch-find {d} {n} {t = t} id u (next {p = p} fresh free rest) e =
    Batch-find id u rest (find-registered id (new_user_row p (d.ids n)) u t fresh e)

find_first : (r : UserRow) (t : Tables) → find r.id (registered r t).users ≡ some r
unfolding find
find_first r t = ground arith

-- A row that the tables have, as CreateUsers was asked for it.
pub record IsStored (password_hash : Bytes) (t : Tables) (r : UserRow) : Type 0 where
  pub found : find r.id t.users ≡ some r
  pub hash : r.password_hash ≡ password_hash
  pub balance : r.balance ≡ default_balance

abbrev pub IsAskedFor : Bytes → DataCreatorCreateUserParams → Type 0
IsAskedFor h p = (p.password_hash ≡ h) × (p.balance ≡ default_balance)

pub Batch-IsStored :
    (h : Bytes) {d : Defaults} {k : ℕ} {ps : List DataCreatorCreateUserParams} {t t' : Tables}
    {rows : List UserRow}
    → Batch d k ps t rows t'
    → All (IsAskedFor h) ps
    → All (IsStored h t') rows × (map (λ r. r.username) rows ≡ map (λ p. p.username) ps)
Batch-IsStored h empty a = (tt, refl)
Batch-IsStored h {d} {k} {t = t} (next {p = p} fresh free rest) a =
    let r = new_user_row p (d.ids k) in
    let (others, names) = Batch-IsStored h rest a.1 in
    (
      (
        record { found = Batch-find r.id r rest (find_first r t); hash = a.0.0; balance = a.0.1 },
        others,
      ),
      ap (λ us. p.username ∷ us) names,
    )

-- the names of `n` users from the `i`-th on
abbrev pub usernames : ℕ → ℕ → List String
usernames i zero = []
usernames i (suc n) = nth_username i ∷ usernames (i + 1) n

pub params-IsAskedFor :
    (h : Bytes) (i n : ℕ)
    → All (IsAskedFor h) (create_user_params h i n)
      × (map (λ p. p.username) (create_user_params h i n) ≡ usernames i n)
unfolding create_user_params
params-IsAskedFor h i zero = (tt, refl)
params-IsAskedFor h i (suc n) =
    let (asked, names) = params-IsAskedFor h (i + 1) n in
    (((refl, refl), asked), ap (λ us. nth_username i ∷ us) names)

pub length-usernames : (i n : ℕ) → length (usernames i n) ≡ n
length-usernames i zero = refl
length-usernames i (suc n) = ap suc (length-usernames (i + 1) n)
