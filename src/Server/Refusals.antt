-- ===== src/Server/Refusals.antt =====
-- What a sender is told whose request comes to no transaction.
use merch.Base.{◌+◌, String, ◌≡◌, ◌⊎◌, refl, inl, inr, true, false, none, some, str_eq, ==_refl}
use merch.Base.Int.{pos, leb_ℤ}
use merch.Go.Errors.{ok, wrap_result, errors_is}
use merch.Postgres.Schema.{Uuid, UserRow, Tables}
use merch.Postgres.Session.{Env, World, arrived}
use merch.Postgres.Delivery.{Delivers, closed}
use merch.Users.Selection.{get_user_by_username_done, get_user_by_username_absent}
use merch.Ledger.Accounts.{find_username}
use merch.Ledger.Invariant.{HasDistinctKeys}
use merch.Transfers.Transferer.{
  transfer_by_username, transfer_to, dst_user_by_username, not_exist_as_dst_not_found,
}
use merch.Server.Responses.{SendCoinRequest, PostApiSendCoinResponse}
use merch.Server.Handlers.{post_api_send_coin, send_error}

-- Why the request of the user `id` cannot succeed, by the request and the table of users, and what
-- the user is told.
pub data IsRefused (t : Tables) (id : Uuid) (body : SendCoinRequest) : String → Type 0 where
  nameless : str_eq body.to_user "" ≡ true → IsRefused t id body "empty toUser body value"
  worthless :
      str_eq body.to_user "" ≡ false
      → leb_ℤ body.amount (pos 0) ≡ true
      → IsRefused t id body "non-positive amount body value"
  to_nobody :
      str_eq body.to_user "" ≡ false
      → leb_ℤ body.amount (pos 0) ≡ false
      → find_username body.to_user t.users ≡ none
      → IsRefused t id body "toUser doesn't exist"
  to_self :
      (u : UserRow)
      → str_eq body.to_user "" ≡ false
      → leb_ℤ body.amount (pos 0) ≡ false
      → find_username body.to_user t.users ≡ some u
      → u.id ≡ id
      → IsRefused t id body "fromUser and toUser are equal"

module _ (env : Env) (id : Uuid) (body : SendCoinRequest) (w : World) where
  -- without a request, or with the lookup alone
  abbrev IsIdle : World → Type 0
  IsIdle v = (v ≡ w) ⊎ (v ≡ closed (arrived env w) (w.tick + 1))

  -- Where every request is delivered and ids and usernames are distinct, the handler of sendCoin
  -- answers 400 with the text that the request and the table of users call for, if the body names
  -- no receiver, or else no positive amount, or else a receiver that nobody is, or else the sender;
  -- and it has made no request beyond the lookup of the receiver.
  pub post_api_send_coin_refused :
      (m : String)
      → Delivers env
      → HasDistinctKeys (arrived env w).users
      → IsRefused (arrived env w) id body m
      → ((post_api_send_coin env (some id) body w).0 ≡ ok (PostApiSendCoinResponse.error400 m))
        × IsIdle (post_api_send_coin env (some id) body w).1
  unfolding post_api_send_coin transfer_by_username transfer_to dst_user_by_username
      not_exist_as_dst_not_found wrap_result send_error errors_is
  post_api_send_coin_refused m delivers keys (nameless e) = rw e (refl, inl refl)
  post_api_send_coin_refused m delivers keys (worthless named e) = rw (named, e) (refl, inl refl)
  post_api_send_coin_refused m delivers keys (to_nobody named positive absent) =
      rw
        (
          named,
          positive,
          transfer_by_username,
          dst_user_by_username,
          get_user_by_username_absent env body.to_user w delivers absent,
        )
        (refl, inr refl)
  post_api_send_coin_refused m delivers keys (to_self u named positive found same) =
      rw
        (
          named,
          positive,
          transfer_by_username,
          dst_user_by_username,
          get_user_by_username_done env body.to_user w u delivers keys found,
          same,
          transfer_to,
          ==_refl,
        )
        (refl, inr refl)
