-- ===== src/Ledger/Preservation.antt =====
-- Each step of the specification keeps the tables consistent.
use merch.Base.{◌≡◌, ◌≢◌, none, some, List, arith, subst, sym}
use merch.Base.Int.{ℤ, pos, ◌+ℤ◌, ◌-ℤ◌, ◌≤ℤ◌, int_laws, parts_of_eq}
use merch.Postgres.Schema.{Uuid, UserRow, TransferRow, PurchaseRow, Tables}
use merch.Users.Creator.{default_balance}
use merch.Users.Balance.{set_balance}
use merch.Ledger.Accounts.{
  find, find_username, balance_of, granted, sent, received, spent, find-set_balance,
}
use merch.Ledger.Invariant.{
  IsConsistent, IsSettled, IsAmount, set_balance-HasDistinctKeys, balance-IsAmount,
}
use merch.Ledger.Change.{
  Change, registration, transfer, purchase, registered, transferred, purchased,
}

-- One more grant on both sides.
regrant :
    (s p r : ℤ) → pos 0 +ℤ s +ℤ p ≡ pos 0 +ℤ r → default_balance +ℤ s +ℤ p ≡ default_balance +ℤ r
regrant s p r h = omega (int_laws, parts_of_eq h)

registered-IsSettled :
    (u : UserRow) (t : Tables) (id : Uuid)
    → u.balance ≡ default_balance
    → find u.id t.users ≡ none
    → IsSettled id t
    → IsSettled id (registered u t)
unfolding find
registered-IsSettled u t id grant fresh h =
    ground (arith, regrant (sent id t.transfers) (spent id t.purchases) (received id t.transfers))

registered-IsConsistent :
    (u : UserRow) (t : Tables)
    → u.balance ≡ default_balance
    → find u.id t.users ≡ none
    → find_username u.username t.users ≡ none
    → IsConsistent t
    → IsConsistent (registered u t)
unfolding find
registered-IsConsistent u t grant fresh free c = record {
  keys = (fresh, free, c.keys);
  balances = λ id. ground (arith, c.balances id);
  prices = c.prices;
  settled = λ id. registered-IsSettled u t id grant fresh (c.settled id);
}

-- The sender's side, the receiver's side, and any other user.
settle_sender :
    (b s p g r x : ℤ) → b +ℤ s +ℤ p ≡ g +ℤ r → b -ℤ x +ℤ (x +ℤ s) +ℤ p ≡ g +ℤ (pos 0 +ℤ r)
settle_sender b s p g r x h = omega (int_laws, parts_of_eq h)

settle_receiver :
    (b s p g r x : ℤ) → b +ℤ s +ℤ p ≡ g +ℤ r → b +ℤ x +ℤ (pos 0 +ℤ s) +ℤ p ≡ g +ℤ (x +ℤ r)
settle_receiver b s p g r x h = omega (int_laws, parts_of_eq h)

settle_other : (b s p g r : ℤ) → b +ℤ s +ℤ p ≡ g +ℤ r → b +ℤ (pos 0 +ℤ s) +ℤ p ≡ g +ℤ (pos 0 +ℤ r)
settle_other b s p g r h = omega (int_laws, parts_of_eq h)

transferred-IsSettled :
    (s d : UserRow) (x : TransferRow) (t : Tables) (id : Uuid)
    → x.src_user_id ≢ x.dst_user_id
    → find x.src_user_id t.users ≡ some s
    → find x.dst_user_id t.users ≡ some d
    → IsSettled id t
    → IsSettled id (transferred s d x t)
unfolding sent received
transferred-IsSettled s d x t id ne es ed h =
    let b = balance_of id t.users in
    let out = sent id t.transfers in
    let paid = spent id t.purchases in
    let g = granted id t.users in
    let got = received id t.transfers in
    let after = set_balance x.src_user_id (s.balance -ℤ x.amount) t.users in
    ground (
      arith,
      find-set_balance id x.dst_user_id (d.balance +ℤ x.amount) after,
      find-set_balance id x.src_user_id (s.balance -ℤ x.amount) t.users,
      settle_sender b out paid g got x.amount,
      settle_receiver b out paid g got x.amount,
      settle_other b out paid g got,
    )

in_range : (b x : ℤ) → IsAmount b → IsAmount x → x ≤ℤ b → IsAmount (b -ℤ x)
in_range b x hb hx h = omega int_laws

set_balance-balances :
    (k : Uuid) (b : ℤ) (us : List UserRow)
    → IsAmount b
    → ((id : Uuid) → IsAmount (balance_of id us))
    → (id : Uuid) → IsAmount (balance_of id (set_balance k b us))
set_balance-balances k b us hb h id = ground (arith, find-set_balance id k b us, h id)

transferred-IsConsistent :
    (s d : UserRow) (x : TransferRow) (t : Tables)
    → x.src_user_id ≢ x.dst_user_id
    → find x.src_user_id t.users ≡ some s
    → find x.dst_user_id t.users ≡ some d
    → IsAmount x.amount
    → x.amount ≤ℤ s.balance
    → IsAmount (d.balance +ℤ x.amount)
    → IsConsistent t
    → IsConsistent (transferred s d x t)
transferred-IsConsistent s d x t ne es ed amount covered fits c = record {
  keys =
      set_balance-HasDistinctKeys x.dst_user_id _ _
        (set_balance-HasDistinctKeys x.src_user_id _ t.users c.keys);
  balances = set_balance-balances x.dst_user_id _ _ fits (
      set_balance-balances x.src_user_id _ t.users
        (in_range s.balance x.amount (balance-IsAmount t x.src_user_id s c es) amount covered)
        c.balances);
  prices = c.prices;
  settled = λ id. transferred-IsSettled s d x t id ne es ed (c.settled id);
}

settle_buyer : (b s p g r x : ℤ) → b +ℤ s +ℤ p ≡ g +ℤ r → b -ℤ x +ℤ s +ℤ (x +ℤ p) ≡ g +ℤ r
settle_buyer b s p g r x h = omega (int_laws, parts_of_eq h)

zero_add : (a : ℤ) → pos 0 +ℤ a ≡ a
zero_add a = omega int_laws

purchased-IsSettled :
    (u : UserRow) (x : PurchaseRow) (t : Tables) (id : Uuid)
    → find x.user_id t.users ≡ some u
    → IsSettled id t
    → IsSettled id (purchased u x t)
unfolding spent
purchased-IsSettled u x t id eu h =
    let b = balance_of id t.users in
    let out = sent id t.transfers in
    let paid = spent id t.purchases in
    let g = granted id t.users in
    let got = received id t.transfers in
    ground (
      arith,
      find-set_balance id x.user_id (u.balance -ℤ x.amount) t.users,
      settle_buyer b out paid g got x.amount,
      zero_add paid,
    )

purchased-IsConsistent :
    (u : UserRow) (x : PurchaseRow) (t : Tables)
    → find x.user_id t.users ≡ some u
    → IsAmount x.amount
    → x.amount ≤ℤ u.balance
    → IsConsistent t
    → IsConsistent (purchased u x t)
purchased-IsConsistent u x t eu amount covered c = record {
  keys = set_balance-HasDistinctKeys x.user_id _ t.users c.keys;
  balances =
      set_balance-balances x.user_id _ t.users
        (in_range u.balance x.amount (balance-IsAmount t x.user_id u c eu) amount covered)
        c.balances;
  prices = c.prices;
  settled = λ id. purchased-IsSettled u x t id eu (c.settled id);
}

-- Each step of the specification keeps the tables consistent: a registration with the default
-- balance under a new id and a free username; a transfer between two different users of an amount
-- that fits, that the sender's balance covers and that the receiver's column can take; a purchase
-- whose amount fits and is covered.
pub Change-IsConsistent : {t t' : Tables} → Change t t' → IsConsistent t → IsConsistent t'
Change-IsConsistent {t} (registration u grant fresh free e) c =
    subst IsConsistent (sym e) (registered-IsConsistent u t grant fresh free c)
Change-IsConsistent {t} (transfer s d x ne es ed amount covered fits e) c =
    subst IsConsistent (sym e) (transferred-IsConsistent s d x t ne es ed amount covered fits c)
Change-IsConsistent {t} (purchase u x eu amount covered e) c =
    subst IsConsistent (sym e) (purchased-IsConsistent u x t eu amount covered c)
