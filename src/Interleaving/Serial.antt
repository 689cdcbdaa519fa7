-- ===== src/Interleaving/Serial.antt =====
-- However the sessions interleave, the tables change as if one job was done after the other.
use merch.Base.{
  ℕ, ◌≡◌, ◌≢◌, refl, sym, ◌⊎◌, inl, inr, Bool, true, false, some, List, [], ◌==◌, ==_eq,
  if◌then◌else◌, subst, arith,
}
use merch.Base.Int.{ℤ}
use merch.Postgres.Schema.{Uuid, UserRow, Tables}
use merch.Items.{Item}
use merch.Ledger.Accounts.{find}
use merch.Ledger.Invariant.{IsAmount, IsConsistent, balance-IsAmount}
use merch.Ledger.Change.{Change, registration}
use merch.Ledger.Preservation.{Change-IsConsistent}
use merch.Transfers.Outcome.{IsTransfer, IsTransfer-Change, written-IsTransfer}
use merch.Purchases.Outcome.{IsPurchase, IsPurchase-Change, written-IsPurchase}
use merch.Interleaving.{
  Job, sending, buying, Write, applied, Stage, updating, Database, IsProper, Move, begin, lock,
  compute, insert_sending, insert_buying, update, commit, rollback, System, Step, pick, register,
  Reach, start, later,
}
use merch.Interleaving.Facts.{Sends, Buys, debit, credit, Fact, Fact-Keeps}
use merch.Interleaving.Locks.{Move-Keeps, registered-Keeps}
use merch.Interleaving.Progress.{Move-Fact}

-- What a job does to the tables.
abbrev pub Does : Job → Tables → Tables → Type 0
Does (sending dst src amount) t t' = IsTransfer dst src amount t t'
Does (buying item user) t t' = IsPurchase user item t t'

sent-Does :
    (dst src : Uuid) (amount : ℤ) (s r : UserRow) (t : Tables) (ws : List Write)
    (fs : IsAmount s.balance) (fr : IsAmount r.balance)
    → find src t.users ≡ some s
    → find dst t.users ≡ some r
    → Sends dst src amount (debit s amount) (credit r amount) ws []
    → IsTransfer dst src amount t (applied ws t)
sent-Does dst src amount s r t ws fs fr es er (Sends.inserted d a e f) = cc
sent-Does dst src amount s r t ws fs fr es er (Sends.debited d a b e f) = cc
sent-Does dst src amount s r t ws fs fr es er (Sends.credited d a b c e f) =
    written-IsTransfer dst src amount s r t (applied ws t) es er fs fr
      (record { values = d; amount_fits = a; src_fits = b; dst_fits = c; result = rw e refl })

bought-Does :
    (item : Item) (user : Uuid) (u : UserRow) (t : Tables) (ws : List Write)
    → IsAmount u.balance
    → find user t.users ≡ some u
    → Buys item user (debit u item.price) ws []
    → IsPurchase user item t (applied ws t)
bought-Does item user u t ws fu eu (Buys.inserted d a e f) = cc
bought-Does item user u t ws fu eu (Buys.paid d a b e f) =
    (written-IsPurchase user item u t (applied ws t) eu fu
      (record { values = d; price_fits = a; balance_fits = b; result = rw e refl })).0

commit-Does :
    (i : ℕ) (db : Database) (j : Job) (ws : List Write)
    → IsConsistent db.tables
    → Fact i db (updating j ws [])
    → Does j db.tables (applied ws db.tables)
commit-Does i db (sending dst src amount) ws c (p, (s, r, ls, lr, e)) =
    sent-Does dst src amount s r db.tables ws (balance-IsAmount db.tables src s c ls.found)
      (balance-IsAmount db.tables dst r c lr.found) ls.found lr.found e
commit-Does i db (buying item user) ws c (p, (u, l, e)) =
    bought-Does item user u db.tables ws (balance-IsAmount db.tables user u c l.found) l.found e

Does-Change : (j : Job) (t t' : Tables) → IsProper j → Does j t t' → Change t t'
Does-Change (sending dst src amount) t t' p h = IsTransfer-Change dst src amount t t' p h
Does-Change (buying item user) t t' p h = IsPurchase-Change user item t t' h

-- The tables stay, or change by one step of the specification.
abbrev pub StaysOrChanges : Tables → Tables → Type 0
StaysOrChanges t t' = (t' ≡ t) ⊎ Change t t'

Move-StaysOrChanges :
    {i : ℕ} {db db' : Database} {s s' : Stage}
    → Move i db s db' s'
    → IsConsistent db.tables
    → Fact i db s
    → StaysOrChanges db.tables db'.tables
Move-StaysOrChanges (begin p) c h = inl refl
Move-StaysOrChanges (lock u m e free) c h = inl refl
Move-StaysOrChanges (compute e) c h = inl refl
Move-StaysOrChanges (insert_sending d e) c h = inl refl
Move-StaysOrChanges (insert_buying d e) c h = inl refl
Move-StaysOrChanges (update d e) c h = inl refl
Move-StaysOrChanges {i} {db} (commit {j} {writes}) c h =
    inr (Does-Change j db.tables (applied writes db.tables) h.0 (commit-Does i db j writes c h))
Move-StaysOrChanges rollback c h = inl refl

-- The tables are consistent, and what every session remembers of them holds.
pub record IsSound (s : System) : Type 0 where
  pub consistent : IsConsistent s.db.tables
  pub facts : (k : ℕ) → Fact k s.db (s.stage k)

StaysOrChanges-IsConsistent :
    (t t' : Tables) → StaysOrChanges t t' → IsConsistent t → IsConsistent t'
StaysOrChanges-IsConsistent t t' (inl e) c = subst IsConsistent (sym e) c
StaysOrChanges-IsConsistent t t' (inr h) c = Change-IsConsistent h c

pick-facts :
    (s : System) (i : ℕ) (db : Database) (p : Stage)
    → Move i s.db (s.stage i) db p
    → IsSound s
    → (k : ℕ) (b : Bool) → (k == i) ≡ b
    → Fact k db (if b then p else s.stage k)
pick-facts s i db p m h k true e =
    subst (λ x. Fact x db p) (sym (==_eq k i e)) (Move-Fact m (h.facts i))
pick-facts s i db p m h k false e =
    Fact-Keeps k s.db db (s.stage k) (Move-Keeps (apart k i e) m (h.facts i)) (h.facts k)
  where
    apart : (k i : ℕ) → (k == i) ≡ false → k ≢ i
    apart k i e f = ground arith

Step-StaysOrChanges :
    {s s' : System} → Step s s' → IsSound s → StaysOrChanges s.db.tables s'.db.tables
Step-StaysOrChanges {s} (pick i m) h = Move-StaysOrChanges m h.consistent (h.facts i)
Step-StaysOrChanges {s} (register u grant fresh free) h = inr (registration u grant fresh free refl)

Step-IsSound : {s s' : System} → Step s s' → IsSound s → IsSound s'
Step-IsSound {s} (pick i {db} {p} m) h = record {
  consistent =
      StaysOrChanges-IsConsistent _ _ (Move-StaysOrChanges m h.consistent (h.facts i)) h.consistent;
  facts = λ k. pick-facts s i db p m h k (k == i) refl;
}
Step-IsSound {s} (register u grant fresh free) h = record {
  consistent = Change-IsConsistent (registration u grant fresh free refl) h.consistent;
  facts = λ k. Fact-Keeps k s.db _ (s.stage k) (registered-Keeps k s.db u fresh) (h.facts k);
}

-- In every state that interleaved sessions can reach from consistent tables, the committed tables
-- are consistent, and what each session remembers of the rows that it has locked still stands in
-- the tables: it owns their locks, and its computed balances come from their current values.
pub Reach-IsSound : {t : Tables} {s : System} → IsConsistent t → Reach t s → IsSound s
Reach-IsSound c start = record { consistent = c; facts = λ k. tt }
Reach-IsSound c (later r st) = Step-IsSound st (Reach-IsSound c r)

-- one change after the other
pub data Changes (t : Tables) : Tables → Type 0 where
  none_yet : Changes t t
  and_then : {u v : Tables} → Changes t u → Change u v → Changes t v

-- Any number of sessions run the transactions of transfers between two different users and of
-- purchases, their statements interleaved in any way, with rows locked by SELECT ... FOR UPDATE and
-- every statement seeing what has been committed by then, with rollbacks at any time and
-- registrations in between. From consistent tables, every state of the committed tables that can
-- come about is reached by a sequence of steps of the specification, one after the other.
pub Reach-Changes : {t : Tables} {s : System} → IsConsistent t → Reach t s → Changes t s.db.tables
Reach-Changes c start = none_yet
Reach-Changes {t} c (later r st) = elim (Step-StaysOrChanges st (Reach-IsSound c r)) [
  | inl e ↦ subst (Changes t) (sym e) (Reach-Changes c r)
  | inr h ↦ and_then (Reach-Changes c r) h
]

-- No update is lost. In every state that interleaved sessions can reach from consistent tables, a
-- session that has done its last update and is about to commit changes the committed tables, as
-- they are at that moment, by exactly its own job: its one transfer, between balances that are
-- still current and cover it, or its one purchase.
pub Reach-commit :
    {t : Tables} {s : System}
    → IsConsistent t
    → Reach t s
    → (i : ℕ) (j : Job) (ws : List Write) → s.stage i ≡ updating j ws []
    → Does j s.db.tables (applied ws s.db.tables)
Reach-commit {t} {s} c r i j ws e =
    let h = Reach-IsSound c r in
    commit-Does i s.db j ws h.consistent (subst (Fact i s.db) e (h.facts i))
