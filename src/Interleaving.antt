-- ===== src/Interleaving.antt =====
-- Transactions of internal/transfer/transferer.go and internal/purchase/purchaser.go side by side:
-- their statements one by one, with the locks of FOR UPDATE at the level READ COMMITTED.
pub mod Program
pub mod Locks
pub mod Plans
pub mod Facts
pub mod Progress
pub mod Serial
use merch.Base.{ℕ, ◌≡◌, ◌≢◌, true, Option, none, some, List, [], ◌∷◌, ◌==◌, if◌then◌else◌, ltb}
use merch.Base.Int.{ℤ, pos, ◌+ℤ◌, ◌-ℤ◌, ltb_ℤ}
use merch.Base.Lists.{any}
use merch.Go.Errors.{sentinel, not_enough, Result, ok, err, panic}
use merch.Go.Results.{◌>>=◌}
use merch.Go.Words.{wrap64}
use merch.Postgres.Schema.{Uuid, UserRow, TransferRow, PurchaseRow, Tables}
use merch.Postgres.Session.{Defaults, done}
use merch.Users.Creator.{default_balance}
use merch.Users.Getter.{exactly_one_user}
use merch.Users.Balance.{set_balance, update_balance}
use merch.Items.{Item}
use merch.Transfers.Transferer.{user_at, users_by_ids, insert_transfer, deref}
use merch.Purchases.Purchaser.{insert_purchase}
use merch.Ledger.Accounts.{find, find_username}
use merch.Ledger.Change.{registered}

-- What a transaction is about: `transferInTx`, or PurchaseByName after the item has been found.
pub data Job : Type 0 where
  sending : (dst_user_id src_user_id : Uuid) (amount : ℤ) → Job
  buying : Item → Uuid → Job

-- the users whose rows it selects FOR UPDATE
unfoldable pub selected_ids : Job → List Uuid
selected_ids (sending dst_user_id src_user_id amount) = src_user_id ∷ dst_user_id ∷ []
selected_ids (buying i user_id) = user_id ∷ []

-- What the program computes from the rows: the balances to write, in their order.
unfoldable pub plan : Job → List UserRow → Result (List (Uuid × ℤ))
plan (sending dst_user_id src_user_id amount) rows = do
  users ← users_by_ids (src_user_id ∷ dst_user_id ∷ []) rows
  src_user ← deref (user_at users src_user_id)
  let src_user_balance = wrap64 (src_user.balance -ℤ amount)
  if ltb_ℤ src_user_balance (pos 0) then err (sentinel not_enough) else do
    dst_user ← deref (user_at users dst_user_id)
    let dst_user_balance = wrap64 (dst_user.balance +ℤ amount)
    ok ((src_user_id, src_user_balance) ∷ (dst_user_id, dst_user_balance) ∷ [])
plan (buying i user_id) rows = do
  u ← exactly_one_user rows
  let balance = wrap64 (u.balance -ℤ i.price)
  if ltb_ℤ balance (pos 0) then err (sentinel not_enough) else ok ((user_id, balance) ∷ [])

-- What a transaction has written and not yet committed, the latest first.
pub data Write : Type 0 where
  transfer_row : TransferRow → Write
  purchase_row : PurchaseRow → Write
  user_balance : Uuid → ℤ → Write

abbrev pub write : Write → Tables → Tables
write (transfer_row x) t = record t { transfers = x ∷ t.transfers }
write (purchase_row x) t = record t { purchases = x ∷ t.purchases }
write (user_balance id b) t = record t { users = set_balance id b t.users }

-- the tables as the transaction sees them: the committed ones, with its own writes
abbrev pub applied : List Write → Tables → Tables
applied [] t = t
applied (x ∷ xs) t = write x (applied xs t)

-- Where a session stands, with the local variables that are live there.
pub data Stage : Type 0 where
  idle : Stage
  -- within SELECT … FOR UPDATE: the rows that it has locked and read
  selecting : Job → List UserRow → Stage
  -- before the INSERT
  inserting : Job → List (Uuid × ℤ) → Stage
  -- before the updates that are left, or COMMIT
  updating : Job → List Write → List (Uuid × ℤ) → Stage

-- The committed tables, and the session that has locked a user's row.
pub record Database : Type 0 where
  pub tables : Tables
  pub owner : Uuid → Option ℕ

abbrev pub own : Uuid → ℕ → (Uuid → Option ℕ) → Uuid → Option ℕ
own id i owner j = if j == id then some i else owner j

abbrev pub released_by : ℕ → Option ℕ → Option ℕ
released_by i none = none
released_by i (some k) = if k == i then none else some k

-- the end of a transaction gives its locks back
abbrev pub release : ℕ → (Uuid → Option ℕ) → Uuid → Option ℕ
release i owner j = released_by i (owner j)

-- `if srcUserID == dstUser.ID` comes before Begin.
abbrev pub IsProper : Job → Type 0
IsProper (sending dst_user_id src_user_id amount) = src_user_id ≢ dst_user_id
IsProper (buying i user_id) = Unit

-- One step of session `i`. Every statement sees what has been committed by then. A transaction may
-- be rolled back at any time: its statement is refused, it waits in a circle with others, the
-- program gives up or panics, or the connection is lost.
pub data Move (i : ℕ) (db : Database) : Stage → Database → Stage → Type 0 where
  begin : {j : Job} → IsProper j → Move i db idle db (selecting j [])
  -- the row's newest version, once no other session has it locked
  lock :
      {j : Job} {rows : List UserRow} (u : UserRow)
      → any (λ id. u.id == id) (selected_ids j) ≡ true
      → find u.id db.tables.users ≡ some u
      → db.owner u.id ≡ none
      → Move i db
          (selecting j rows)
          (record db { owner = own u.id i db.owner })
          (selecting j (u ∷ rows))
  compute :
      {j : Job} {rows : List UserRow} {balances : List (Uuid × ℤ)}
      → plan j rows ≡ ok balances
      → Move i db (selecting j rows) db (inserting j balances)
  insert_sending :
      {dst src : Uuid} {amount : ℤ} {balances : List (Uuid × ℤ)} (d : Defaults) {x : TransferRow}
      {t : Tables}
      → insert_transfer dst src amount d db.tables ≡ done (x ∷ []) t
      → Move i db
          (inserting (sending dst src amount) balances)
          db
          (updating (sending dst src amount) (transfer_row x ∷ []) balances)
  insert_buying :
      {item : Item} {user : Uuid} {balances : List (Uuid × ℤ)} (d : Defaults) {x : PurchaseRow}
      {t : Tables}
      → insert_purchase user item.id item.price d db.tables ≡ done (x ∷ []) t
      → Move i db
          (inserting (buying item user) balances)
          db
          (updating (buying item user) (purchase_row x ∷ []) balances)
  update :
      {j : Job} {writes : List Write} {id : Uuid} {b : ℤ} {balances : List (Uuid × ℤ)}
      (d : Defaults) {x : UserRow} {t : Tables}
      → update_balance id b d (applied writes db.tables) ≡ done (x ∷ []) t
      → Move i db
          (updating j writes ((id, b) ∷ balances))
          db
          (updating j (user_balance id b ∷ writes) balances)
  commit :
      {j : Job} {writes : List Write}
      → Move i db
          (updating j writes [])
          (record { tables = applied writes db.tables; owner = release i db.owner })
          idle
  rollback : {s : Stage} → Move i db s (record db { owner = release i db.owner }) idle

pub record System : Type 0 where
  pub db : Database
  pub stage : ℕ → Stage

abbrev pub at : (ℕ → Stage) → ℕ → Stage → ℕ → Stage
at f i s k = if k == i then s else f k

-- Any session moves, or a user is registered: one statement, with its unique indexes.
pub data Step (s : System) : System → Type 0 where
  pick :
      (i : ℕ) {db : Database} {p : Stage}
      → Move i s.db (s.stage i) db p
      → Step s (record { db = db; stage = at s.stage i p })
  register :
      (u : UserRow)
      → u.balance ≡ default_balance
      → find u.id s.db.tables.users ≡ none
      → find_username u.username s.db.tables.users ≡ none
      → Step s (record s { db = record s.db { tables = registered u s.db.tables } })

-- no transaction has begun
abbrev pub quiescent : Tables → System
quiescent t = record { db = record { tables = t; owner = λ id. none }; stage = λ i. idle }

pub data Reach (t : Tables) : System → Type 0 where
  start : Reach t (quiescent t)
  later : {s u : System} → Reach t s → Step s u → Reach t u
