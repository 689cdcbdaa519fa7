-- ===== src/Tests/Refusals.antt =====
-- The refusals of a sender, at a concrete request.
use merch.Base.{◌≡◌, ◌⊎◌, refl, some}
use merch.Base.Int.{pos}
use merch.Go.Errors.{ok}
use merch.Postgres.Delivery.{closed}
use merch.Ledger.Accounts.{find_username}
use merch.Server.Responses.{SendCoinRequest, PostApiSendCoinResponse}
use merch.Server.Handlers.{post_api_send_coin}
use merch.Server.Refusals.{IsRefused, post_api_send_coin_refused, to_self}
use merch.Tests.Data.{bob, two_users, two_users-IsConsistent, quiet, start}

abbrev to_bob : SendCoinRequest
to_bob = record { amount = pos 30; to_user = "bob" }

is_himself : IsRefused two_users 2 to_bob "fromUser and toUser are equal"
unfolding find_username
is_himself = to_self bob refl refl refl refl

post_api_send_coin_refused_example :
    ((post_api_send_coin quiet (some 2) to_bob start).0
      ≡ ok (PostApiSendCoinResponse.error400 "fromUser and toUser are equal"))
    × (((post_api_send_coin quiet (some 2) to_bob start).1 ≡ start)
        ⊎ ((post_api_send_coin quiet (some 2) to_bob start).1 ≡ closed two_users 1))
post_api_send_coin_refused_example =
    post_api_send_coin_refused quiet 2 to_bob start "fromUser and toUser are equal" (λ n. refl)
      two_users-IsConsistent.keys is_himself
