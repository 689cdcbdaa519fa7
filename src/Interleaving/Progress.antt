-- ===== src/Interleaving/Progress.antt =====
-- A session's own step, and what its locals say after it.
use merch.Base.{ℕ, ◌≡◌, refl, subst, true, none, some, List, [], ◌∷◌, ◌==◌, ==_refl, arith}
use merch.Base.Int.{ℤ}
use merch.Base.Lists.{any}
use merch.Ledger.Accounts.{find}
use merch.Postgres.Schema.{Uuid, UserRow, TransferRow, PurchaseRow, Tables, in_integer, ge_0}
use merch.Postgres.Session.{Defaults, done}
use merch.Users.Balance.{update_balance}
use merch.Items.{Item}
use merch.Ledger.Invariant.{IsAmount}
use merch.Transfers.Transferer.{insert_transfer, new_transfer_row}
use merch.Purchases.Purchaser.{insert_purchase, new_purchase_row}
use merch.Interleaving.{
  Job, sending, buying, selected_ids, Write, user_balance, Stage, selecting, Database, own, Move,
  begin, lock, compute, insert_sending, insert_buying, update, commit, rollback,
}
use merch.Interleaving.Facts.{Sends, Buys, Writing, Fact, Fact-Keeps}
use merch.Interleaving.Locks.{own-Keeps}
use merch.Interleaving.Plans.{plan-Planned}

insert_transfer-fits :
    (dst src : Uuid) (amount : ℤ) (d : Defaults) (t t' : Tables) (x : TransferRow)
    → insert_transfer dst src amount d t ≡ done (x ∷ []) t'
    → (x ≡ new_transfer_row d dst src amount) × IsAmount amount
unfolding insert_transfer in_integer ge_0
insert_transfer-fits dst src amount d t t' x e = (ground arith, ground arith)

insert_purchase-fits :
    (user item : Uuid) (amount : ℤ) (d : Defaults) (t t' : Tables) (x : PurchaseRow)
    → insert_purchase user item amount d t ≡ done (x ∷ []) t'
    → (x ≡ new_purchase_row d user item amount) × IsAmount amount
unfolding insert_purchase in_integer ge_0
insert_purchase-fits user item amount d t t' x e = (ground arith, ground arith)

update_balance-fits :
    (id : Uuid) (b : ℤ) (d : Defaults) (t t' : Tables) (x : UserRow)
    → update_balance id b d t ≡ done (x ∷ []) t'
    → IsAmount b
unfolding update_balance in_integer ge_0
update_balance-fits id b d t t' x e = ground arith

balance_parts :
    (id id' : Uuid) (b b' : ℤ) (bs bs' : List (Uuid × ℤ))
    → ◌≡◌ {A = List (Uuid × ℤ)} ((id, b) ∷ bs) ((id', b') ∷ bs')
    → (id ≡ id') × (b ≡ b') × (bs ≡ bs')
balance_parts id id' b b' bs bs' e = (cc, cc, cc)

-- the first or the second update of a transfer
Sends-update :
    (dst src : Uuid) (amount sb rb : ℤ) (ws : List Write) (id : Uuid) (b : ℤ) (bs : List (Uuid × ℤ))
    → IsAmount b
    → Sends dst src amount sb rb ws ((id, b) ∷ bs)
    → Sends dst src amount sb rb (user_balance id b ∷ ws) bs
Sends-update dst src amount sb rb ws id b bs h (Sends.inserted d a e f) =
    let (p, q, r) = balance_parts id src b sb bs ((dst, rb) ∷ []) f in
    Sends.debited d a (subst IsAmount q h) (rw (p, q, e) refl) r
Sends-update dst src amount sb rb ws id b bs h (Sends.debited d a c e f) =
    let (p, q, r) = balance_parts id dst b rb bs [] f in
    Sends.credited d a c (subst IsAmount q h) (rw (p, q, e) refl) r
Sends-update dst src amount sb rb ws id b bs h (Sends.credited d a c k e f) = cc

Buys-update :
    (item : Item) (user : Uuid) (balance : ℤ) (ws : List Write) (id : Uuid) (b : ℤ)
    (bs : List (Uuid × ℤ))
    → IsAmount b
    → Buys item user balance ws ((id, b) ∷ bs)
    → Buys item user balance (user_balance id b ∷ ws) bs
Buys-update item user balance ws id b bs h (Buys.inserted d a e f) =
    let (p, q, r) = balance_parts id user b balance bs [] f in
    Buys.paid d a (subst IsAmount q h) (rw (p, q, e) refl) r
Buys-update item user balance ws id b bs h (Buys.paid d a c e f) = cc

Writing-update :
    (i : ℕ) (db : Database) (j : Job) (ws : List Write) (id : Uuid) (b : ℤ) (bs : List (Uuid × ℤ))
    → IsAmount b
    → Writing i db j ws ((id, b) ∷ bs)
    → Writing i db j (user_balance id b ∷ ws) bs
Writing-update i db (sending dst src amount) ws id b bs h (s, r, ls, lr, w) =
    (s, r, ls, lr, Sends-update dst src amount _ _ ws id b bs h w)
Writing-update i db (buying item user) ws id b bs h (u, l, w) =
    (u, l, Buys-update item user _ ws id b bs h w)

-- the row that has just been locked
lock-Fact :
    (i : ℕ) (db : Database) (j : Job) (rows : List UserRow) (u : UserRow)
    → any (λ id. u.id == id) (selected_ids j) ≡ true
    → find u.id db.tables.users ≡ some u
    → db.owner u.id ≡ none
    → Fact i db (selecting j rows)
    → Fact i (record db { owner = own u.id i db.owner }) (selecting j (u ∷ rows))
lock-Fact i db j rows u m e free h =
    let kept = Fact-Keeps i db _ (selecting j rows) (own-Keeps i i db u.id free) h in
    (kept.0, ((m, record { owned = rw (==_refl u.id) refl; found = e }), kept.1))

-- A session's step leaves its own locals true.
pub Move-Fact :
    {i : ℕ} {db db' : Database} {s s' : Stage} → Move i db s db' s' → Fact i db s → Fact i db' s'
Move-Fact (begin p) h = (p, tt)
Move-Fact {i} {db} (lock {j} {rows} u m e free) h = lock-Fact i db j rows u m e free h
Move-Fact {i} {db} (compute {j} {rows} {balances} e) h =
    (h.0, plan-Planned i db j rows balances h.1 e)
Move-Fact {i} {db} (insert_sending {dst} {src} {amount} d {x} {t} e) (p, (s, r, ls, lr, f)) =
    let (g, a) = insert_transfer-fits dst src amount d db.tables t x e in
    (p, (s, r, ls, lr, Sends.inserted d a (rw g refl) f))
Move-Fact {i} {db} (insert_buying {item} {user} d {x} {t} e) (p, (u, l, f)) =
    let (g, a) = insert_purchase-fits user item.id item.price d db.tables t x e in
    (p, (u, l, Buys.inserted d a (rw g refl) f))
Move-Fact {i} {db} (update {j} {writes} {id} {b} {balances} d {x} {t} e) h =
    (h.0, Writing-update i db j writes id b balances (update_balance-fits id b d _ t x e) h.1)
Move-Fact commit h = tt
Move-Fact rollback h = tt
