-- ===== src/Interleaving/Locks.antt =====
-- What a session's step leaves of the rows that other sessions have locked.
use merch.Base.{ℕ, ◌≡◌, ◌≢◌, ◌∙◌, none, some, List, [], arith}
use merch.Base.Int.{ℤ}
use merch.Postgres.Schema.{Uuid, UserRow, Tables}
use merch.Items.{Item}
use merch.Users.Balance.{set_balance}
use merch.Ledger.Accounts.{find, find-set_balance}
use merch.Ledger.Change.{registered}
use merch.Interleaving.{
  Job, sending, buying, Write, applied, Stage, updating, Database, own, release, Move, begin, lock,
  compute, insert_sending, insert_buying, update, commit, rollback,
}
use merch.Interleaving.Facts.{Sends, Buys, debit, credit, Fact, Keeps}

-- a balance that is written to another row
find-other :
    (j id : Uuid) (b : ℤ) (us : List UserRow) → j ≢ id → find j (set_balance id b us) ≡ find j us
find-other j id b us ne = ground (arith, find-set_balance j id b us)

other_owner :
    (i k : ℕ) (db : Database) (id j : Uuid)
    → k ≢ i
    → db.owner id ≡ some k
    → db.owner j ≡ some i
    → id ≢ j
other_owner i k db id j ne a b = ground (arith)

pub own-Keeps :
    (i k : ℕ) (db : Database) (id : Uuid)
    → db.owner id ≡ none
    → Keeps k db (record db { owner = own id i db.owner })
own-Keeps i k db id free j u l = record { owned = ground (arith, l.owned); found = l.found }

pub release-Keeps :
    (i k : ℕ) (db : Database) → k ≢ i → Keeps k db (record db { owner = release i db.owner })
release-Keeps i k db ne j u l = record { owned = ground (arith, l.owned); found = l.found }

sent-find :
    (dst src : Uuid) (amount sb rb : ℤ) (ws : List Write) (t : Tables) (j : Uuid)
    → Sends dst src amount sb rb ws []
    → j ≢ src
    → j ≢ dst
    → find j (applied ws t).users ≡ find j t.users
sent-find dst src amount sb rb ws t j (Sends.inserted d a e f) ns nd = cc
sent-find dst src amount sb rb ws t j (Sends.debited d a b e f) ns nd = cc
sent-find dst src amount sb rb ws t j (Sends.credited d a b c e f) ns nd =
    rw e (find-other j dst rb (set_balance src sb t.users) nd ∙ find-other j src sb t.users ns)

bought-find :
    (item : Item) (user : Uuid) (balance : ℤ) (ws : List Write) (t : Tables) (j : Uuid)
    → Buys item user balance ws []
    → j ≢ user
    → find j (applied ws t).users ≡ find j t.users
bought-find item user b ws t j (Buys.inserted d a e f) n = cc
bought-find item user b ws t j (Buys.paid d a c e f) n = rw e (find-other j user b t.users n)

commit-Keeps :
    (i k : ℕ) (db : Database) (j : Job) (ws : List Write)
    → k ≢ i
    → Fact i db (updating j ws [])
    → Keeps k db (record { tables = applied ws db.tables; owner = release i db.owner })
commit-Keeps i k db (sending dst src amount) ws ne (p, (s, r, ls, lr, e)) id u l = record {
  owned = ground (arith, l.owned);
  found =
      sent-find dst src amount (debit s amount) (credit r amount) ws db.tables id e
        (other_owner i k db id src ne l.owned ls.owned)
        (other_owner i k db id dst ne l.owned lr.owned)
      ∙ l.found;
}
commit-Keeps i k db (buying item user) ws ne (p, (b, lb, e)) id u l = record {
  owned = ground (arith, l.owned);
  found =
      bought-find item user (debit b item.price) ws db.tables id e
        (other_owner i k db id user ne l.owned lb.owned)
      ∙ l.found;
}

-- Another session's step changes no row that is locked.
pub Move-Keeps :
    {i k : ℕ} {db db' : Database} {s s' : Stage}
    → k ≢ i
    → Move i db s db' s'
    → Fact i db s
    → Keeps k db db'
Move-Keeps {i} {k} {db} ne (begin p) h = λ id u l. l
Move-Keeps {i} {k} {db} ne (lock u m e free) h = own-Keeps i k db u.id free
Move-Keeps {i} {k} {db} ne (compute e) h = λ id u l. l
Move-Keeps {i} {k} {db} ne (insert_sending d e) h = λ id u l. l
Move-Keeps {i} {k} {db} ne (insert_buying d e) h = λ id u l. l
Move-Keeps {i} {k} {db} ne (update d e) h = λ id u l. l
Move-Keeps {i} {k} {db} ne (commit {j} {writes}) h = commit-Keeps i k db j writes ne h
Move-Keeps {i} {k} {db} ne rollback h = release-Keeps i k db ne

-- So does a registration.
pub registered-Keeps :
    (k : ℕ) (db : Database) (v : UserRow)
    → find v.id db.tables.users ≡ none
    → Keeps k db (record db { tables = registered v db.tables })
unfolding find
registered-Keeps k db v fresh id u l = record { owned = l.owned; found = ground (arith, l.found) }
