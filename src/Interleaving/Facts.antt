-- ===== src/Interleaving/Facts.antt =====
-- What the locals of a session say of the tables.
use merch.Base.{◌≡◌, true, some, List, [], ◌∷◌, ◌==◌}
use merch.Base.Int.{ℤ, ◌+ℤ◌, ◌-ℤ◌}
use merch.Base.Lists.{All, any}
use merch.Go.Words.{wrap64}
use merch.Base.{ℕ}
use merch.Postgres.Schema.{Uuid, UserRow}
use merch.Postgres.Session.{Defaults}
use merch.Items.{Item}
use merch.Ledger.Accounts.{find}
use merch.Ledger.Invariant.{IsAmount}
use merch.Transfers.Transferer.{new_transfer_row}
use merch.Purchases.Purchaser.{new_purchase_row}
use merch.Interleaving.{
  Job, sending, buying, selected_ids, Write, transfer_row, purchase_row, user_balance, Stage, idle,
  selecting, inserting, updating, Database, IsProper,
}

-- Session `i` has the row of `id` locked, and `u` is what stands there.
pub record IsLocked (i : ℕ) (db : Database) (id : Uuid) (u : UserRow) : Type 0 where
  pub owned : db.owner id ≡ some i
  pub found : find id db.tables.users ≡ some u

abbrev pub IsHeld : ℕ → Database → Job → UserRow → Type 0
IsHeld i db j u = (any (λ id. u.id == id) (selected_ids j) ≡ true) × IsLocked i db u.id u

-- How far the writes of a transfer have come.
pub data Sends (dst src : Uuid) (amount src_balance dst_balance : ℤ) (ws : List Write)
    (bs : List (Uuid × ℤ)) : Type 0 where
  inserted :
      (d : Defaults)
      → IsAmount amount
      → ws ≡ transfer_row (new_transfer_row d dst src amount) ∷ []
      → bs ≡ (src, src_balance) ∷ (dst, dst_balance) ∷ []
      → Sends dst src amount src_balance dst_balance ws bs
  debited :
      (d : Defaults)
      → IsAmount amount
      → IsAmount src_balance
      → ws ≡ user_balance src src_balance ∷ transfer_row (new_transfer_row d dst src amount) ∷ []
      → bs ≡ (dst, dst_balance) ∷ []
      → Sends dst src amount src_balance dst_balance ws bs
  credited :
      (d : Defaults)
      → IsAmount amount
      → IsAmount src_balance
      → IsAmount dst_balance
      → ws
        ≡ user_balance dst dst_balance
          ∷ user_balance src src_balance
          ∷ transfer_row (new_transfer_row d dst src amount)
          ∷ []
      → bs ≡ []
      → Sends dst src amount src_balance dst_balance ws bs

-- How far the writes of a purchase have come.
pub data Buys (i : Item) (user : Uuid) (balance : ℤ) (ws : List Write) (bs : List (Uuid × ℤ))
    : Type 0 where
  inserted :
      (d : Defaults)
      → IsAmount i.price
      → ws ≡ purchase_row (new_purchase_row d user i.id i.price) ∷ []
      → bs ≡ (user, balance) ∷ []
      → Buys i user balance ws bs
  paid :
      (d : Defaults)
      → IsAmount i.price
      → IsAmount balance
      → ws ≡ user_balance user balance ∷ purchase_row (new_purchase_row d user i.id i.price) ∷ []
      → bs ≡ []
      → Buys i user balance ws bs

abbrev pub debit : UserRow → ℤ → ℤ
debit u amount = wrap64 (u.balance -ℤ amount)

abbrev pub credit : UserRow → ℤ → ℤ
credit u amount = wrap64 (u.balance +ℤ amount)

-- The balances come from rows that are locked and have not changed.
abbrev pub Planned : ℕ → Database → Job → List (Uuid × ℤ) → Type 0
Planned i db (sending dst src amount) bs =
    (s : UserRow) × (r : UserRow) × IsLocked i db src s
    × IsLocked i db dst r
    × (bs ≡ (src, debit s amount) ∷ (dst, credit r amount) ∷ [])
Planned i db (buying item user) bs =
    (u : UserRow) × IsLocked i db user u × (bs ≡ (user, debit u item.price) ∷ [])

abbrev pub Writing : ℕ → Database → Job → List Write → List (Uuid × ℤ) → Type 0
Writing i db (sending dst src amount) ws bs =
    (s : UserRow) × (r : UserRow) × IsLocked i db src s
    × IsLocked i db dst r
    × Sends dst src amount (debit s amount) (credit r amount) ws bs
Writing i db (buying item user) ws bs =
    (u : UserRow) × IsLocked i db user u × Buys item user (debit u item.price) ws bs

abbrev pub Fact : ℕ → Database → Stage → Type 0
Fact i db idle = Unit
Fact i db (selecting j rows) = IsProper j × All (IsHeld i db j) rows
Fact i db (inserting j bs) = IsProper j × Planned i db j bs
Fact i db (updating j ws bs) = IsProper j × Writing i db j ws bs

-- What a session has locked stays as it is.
abbrev pub Keeps : ℕ → Database → Database → Type 0
Keeps i db db' = (id : Uuid) (u : UserRow) → IsLocked i db id u → IsLocked i db' id u

All-Keeps :
    (i : ℕ) (db db' : Database) (j : Job) (rows : List UserRow)
    → Keeps i db db'
    → All (IsHeld i db j) rows
    → All (IsHeld i db' j) rows
All-Keeps i db db' j [] k h = tt
All-Keeps i db db' j (u ∷ us) k h = ((h.0.0, k u.id u h.0.1), All-Keeps i db db' j us k h.1)

-- So the facts outlast what other sessions do.
pub Fact-Keeps :
    (i : ℕ) (db db' : Database) (s : Stage) → Keeps i db db' → Fact i db s → Fact i db' s
Fact-Keeps i db db' idle k h = tt
Fact-Keeps i db db' (selecting j rows) k h = (h.0, All-Keeps i db db' j rows k h.1)
Fact-Keeps i db db' (inserting (sending dst src amount) bs) k (p, (s, r, ls, lr, e)) =
    (p, (s, r, k src s ls, k dst r lr, e))
Fact-Keeps i db db' (inserting (buying item user) bs) k (p, (u, l, e)) = (p, (u, k user u l, e))
Fact-Keeps i db db' (updating (sending dst src amount) ws bs) k (p, (s, r, ls, lr, e)) =
    (p, (s, r, k src s ls, k dst r lr, e))
Fact-Keeps i db db' (updating (buying item user) ws bs) k (p, (u, l, e)) = (p, (u, k user u l, e))
