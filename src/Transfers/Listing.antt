-- ===== src/Transfers/Listing.antt =====
-- What the getter of internal/transfer returns.
use mathlib.Core.List.{Perm}
use merch.Base.{◌≡◌, refl, Option, none, some, List, [], ◌∷◌, map}
use merch.Base.Lists.{filter}
use merch.Go.Errors.{Result, ok, err, panic}
use merch.Postgres.Schema.{Uuid, UserRow, TransferRow, Tables}
use merch.Postgres.Session.{Env, World, pool, arrived}
use merch.Postgres.Triples.{Ends, Ends-wrapped}
use merch.Postgres.Transactions.{Yields, Yields-mono}
use merch.Postgres.Pool.{TablesAre, read-Ends}
use merch.Postgres.Rows.{collect_rows, and_rest}
use merch.Ledger.Accounts.{find}
use merch.Ledger.Invariant.{HasDistinctKeys}
use merch.Transfers.Model.{Transfer, row_to_transfer_with_usernames}
use merch.Transfers.Getter.{
  concerns, order_rows, join_usernames, select_transfers_by_user_id, find_transfers_by_user_id,
  get_transfers_by_user_id,
}
use merch.Transfers.Ordering.{
  in_order, IsOrdered, in_order-IsOrdered, in_order-Perm, named, order_rows-join_usernames,
}

-- two lists of one length, entry by entry
abbrev pub AreRelated : {A B : Type 0} → (A → B → Type 0) → List A → List B → Type 0
AreRelated P [] [] = Unit
AreRelated P [] (y ∷ ys) = ⊥
AreRelated P (x ∷ xs) [] = ⊥
AreRelated P (x ∷ xs) (y ∷ ys) = P x y × AreRelated P xs ys

and_rest-AreRelated :
    {A C : Type 0} (P : A → C → Type 0) (x : A) (xs : List A) (r : Result C) (rs : Result (List C))
    → Yields (P x) r
    → Yields (AreRelated P xs) rs
    → Yields (AreRelated P (x ∷ xs)) (and_rest r rs)
and_rest-AreRelated P x xs (ok y) (ok ys) h k = (h, k)
and_rest-AreRelated P x xs (ok y) (err e) h k = tt
and_rest-AreRelated P x xs (ok y) panic h k = k
and_rest-AreRelated P x xs (err e) rs h k = tt
and_rest-AreRelated P x xs panic rs h k = h

collect_rows-AreRelated :
    {A B C : Type 0} (P : A → C → Type 0) (g : A → B) (f : B → Result C) (xs : List A)
    → ((x : A) → Yields (P x) (f (g x)))
    → Yields (AreRelated P xs) (collect_rows f (map g xs))
unfolding collect_rows
collect_rows-AreRelated P g f [] h = tt
collect_rows-AreRelated P g f (x ∷ xs) h =
    and_rest-AreRelated P x xs (f (g x)) (collect_rows f (map g xs)) (h x)
      (collect_rows-AreRelated P g f xs h)

-- the transfer of a row, with the usernames of the two users
pub record IsTransferOf (us : List UserRow) (x : TransferRow) (y : Transfer) : Type 0 where
  pub dst : UserRow
  pub src : UserRow
  pub dst_found : find x.dst_user_id us ≡ some dst
  pub src_found : find x.src_user_id us ≡ some src
  pub transfer : y ≡ record {
    id = x.id;
    created_at = x.created_at;
    dst_user_id = x.dst_user_id;
    src_user_id = x.src_user_id;
    amount = x.amount;
    dst_username = dst.username;
    src_username = src.username;
  }

row-IsTransferOf :
    (us : List UserRow) (x : TransferRow)
    → Yields (IsTransferOf us x) (row_to_transfer_with_usernames (named us x))
unfolding row_to_transfer_with_usernames
row-IsTransferOf us x = go (find x.dst_user_id us) (find x.src_user_id us) refl refl
  where
    go :
        (d s : Option UserRow)
        → find x.dst_user_id us ≡ d
        → find x.src_user_id us ≡ s
        → Yields (IsTransferOf us x) (row_to_transfer_with_usernames (named us x))
    go none s ed es = rw (row_to_transfer_with_usernames, ed) tt
    go (some d) none ed es = rw (row_to_transfer_with_usernames, ed, es) tt
    go (some d) (some s) ed es =
        rw (row_to_transfer_with_usernames, ed, es)
          (record { dst = d; src = s; dst_found = ed; src_found = es; transfer = refl })

-- The transfers of a user in the tables: those to and from the user, in the order of their time and
-- id, each with the names of both users.
pub record IsHistory (id : Uuid) (t : Tables) (ts : List Transfer) : Type 0 where
  pub rows : List TransferRow
  pub complete : Perm rows (filter (concerns id) t.transfers)
  pub ordered : IsOrdered rows
  pub listed : AreRelated (IsTransferOf t.users) rows ts

rows-IsHistory :
    (id : Uuid) (t : Tables)
    → HasDistinctKeys t.users
    → Yields (IsHistory id t) (
        collect_rows row_to_transfer_with_usernames
          (order_rows (join_usernames t.users (filter (concerns id) t.transfers))))
rows-IsHistory id t k =
    let xs = filter (concerns id) t.transfers in
    rw (order_rows-join_usernames t.users xs k) (
      Yields-mono (AreRelated (IsTransferOf t.users) (in_order xs)) (IsHistory id t) _
        (λ ts h. record {
          rows = in_order xs;
          complete = in_order-Perm xs;
          ordered = in_order-IsOrdered xs;
          listed = h;
        })
        (collect_rows-AreRelated (IsTransferOf t.users) (named t.users)
          row_to_transfer_with_usernames (in_order xs) (row-IsTransferOf t.users)))

-- Where ids and usernames are distinct, GetTransfersByUserID on the pool does not panic and leaves
-- the tables as the other clients made them; if it returns, it returns, for exactly the transfers
-- in them to or from the user, each once, in the order of their time and then their id, the
-- transfer with the usernames of its two users.
pub get_transfers_by_user_id-Ends :
    (env : Env) (id : Uuid) (w : World)
    → HasDistinctKeys (arrived env w).users
    → Ends
        (λ ts v. (v.tables ≡ arrived env w) × IsHistory id (arrived env w) ts)
        (TablesAre (arrived env w))
        (get_transfers_by_user_id env pool id w)
unfolding get_transfers_by_user_id find_transfers_by_user_id select_transfers_by_user_id
get_transfers_by_user_id-Ends env id w k =
    let t = arrived env w in
    Ends-wrapped "transfer.Getter" (λ ts v. (v.tables ≡ t) × IsHistory id t ts) (TablesAre t)
      (find_transfers_by_user_id env pool id) w
      (read-Ends env (select_transfers_by_user_id id) (collect_rows row_to_transfer_with_usernames)
        w _ (IsHistory id t) refl (rows-IsHistory id t k))
