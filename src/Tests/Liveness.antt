-- ===== src/Tests/Liveness.antt =====
-- A transfer and a purchase that return.
use merch.Base.{◌≡◌, refl, arith, [], ◌∷◌}
use merch.Base.Int.{pos, int_laws}
use merch.Base.Lists.{filter}
use merch.Go.Errors.{
  ok, err, wrap, sentinel, password_not_match, invalid_username_or_password, errors_is,
}
use merch.Auth.Password.{authenticate_password}
use merch.Auth.Liveness.{
  authenticate_password_right, authenticate_password_wrong, authenticate_password_new,
}
use merch.Ledger.Accounts.{find, find_username}
use merch.Items.Lookup.{item_of}
use merch.Transfers.Transferer.{transfer_by_username}
use merch.Transfers.Liveness.Payment.{CanPay}
use merch.Transfers.Liveness.{transfer_by_username_done}
use merch.Purchases.Purchaser.{purchase_by_name}
use merch.Purchases.Liveness.{CanBuy, purchase_at, purchase_by_name_done}
use merch.Tests.Data.{
  alice, bob, cup, two_users, two_users-IsConsistent, quiet, start, plain_hasher,
}

alice-CanPay : CanPay 2 1 (pos 300) two_users
unfolding find
alice-CanPay = record {
  consistent = two_users-IsConsistent;
  sender = alice;
  receiver = bob;
  sender_found = refl;
  receiver_found = refl;
  amount_fits = (omega arith, omega arith);
  covered = omega arith;
  receiver_fits = (omega int_laws, omega int_laws);
}

transfer_by_username_done_example : (transfer_by_username quiet "bob" 1 (pos 300) start).0 ≡ ok tt
unfolding find_username
transfer_by_username_done_example =
    transfer_by_username_done quiet "bob" 1 (pos 300) start bob (λ n. refl)
      two_users-IsConsistent.keys refl (λ e. omega arith) alice-CanPay refl

alice-CanBuy : CanBuy 1 (item_of cup) two_users
unfolding find
alice-CanBuy = record {
  consistent = two_users-IsConsistent;
  buyer = alice;
  buyer_found = refl;
  on_sale = refl;
  price_fits = (omega arith, omega arith);
  covered = omega arith;
}

purchase_by_name_done_example :
    (purchase_by_name quiet "cup" 1 start).0 ≡ ok (purchase_at quiet 3 1 (item_of cup))
unfolding filter
purchase_by_name_done_example =
    purchase_by_name_done quiet "cup" 1 start cup (λ n. refl) refl alice-CanBuy refl

authenticate_password_right_example :
    (authenticate_password quiet plain_hasher "bob" (2 ∷ []) start).0 ≡ ok (record { user_id = 2 })
unfolding find_username
authenticate_password_right_example =
    authenticate_password_right quiet plain_hasher (λ n. refl) "bob" (2 ∷ []) start bob
      two_users-IsConsistent.keys refl refl

authenticate_password_wrong_example :
    (authenticate_password quiet plain_hasher "bob" (9 ∷ []) start).0
    ≡ err (wrap "auth.PasswordAuthenticator" (sentinel invalid_username_or_password))
unfolding find_username errors_is
authenticate_password_wrong_example =
    authenticate_password_wrong quiet plain_hasher (λ n. refl) "bob" (9 ∷ []) start bob
      two_users-IsConsistent.keys refl (sentinel password_not_match) refl refl

authenticate_password_new_example :
    (authenticate_password quiet plain_hasher "dave" (4 ∷ []) start).0
    ≡ ok (record { user_id = 1010 })
unfolding find_username
authenticate_password_new_example =
    authenticate_password_new quiet plain_hasher (λ n. refl) "dave" (4 ∷ []) start (4 ∷ []) refl
      refl refl refl
