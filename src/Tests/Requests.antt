-- ===== src/Tests/Requests.antt =====
-- The theorems on the server, at concrete requests.
use merch.Base.{String, ◌≡◌, refl, ◌⊎◌, Bool, true, some, [], ◌∷◌, map}
use merch.Base.Int.{pos}
use merch.Postgres.Schema.{Bytes}
use merch.Ledger.Invariant.{IsConsistent}
use merch.Transfers.Model.{Transfer}
use merch.Auth.Password.{Data}
use merch.Server.Middleware.{decoded, undecodable, Request, is_open, path_is}
use merch.Server.Router.{route, dispatch, serve, serve_all}
use merch.Postgres.Triples.{Ends}
use merch.Server.Responses.{SendCoinRequest}
use merch.Server.Handlers.{post_api_send_coin, get_api_buy_item}
use merch.Server.Effects.{
  Sends, SendFails, BuysItem, BuyFails, post_api_send_coin-Ends, get_api_buy_item-Ends,
}
use merch.Server.Serving.{serve_all-IsConsistent}
use merch.Server.Gate.{HasToken, IsRefused, serve-IsGated}
use merch.Server.Info.{info_response, inventory_item}
use merch.Server.History.{received_by, sent_by, info_response_lem}
use merch.Tests.Data.{two_users, two_users-IsConsistent, quiet, start, plain_hasher}
use merch.Tests.Tokens.{one_token}

abbrev collate : String → String → Bool
collate a b = true

-- "Bearer" in small letters, a space, and bob's token
abbrev authorization : Bytes
authorization = 98 ∷ 101 ∷ 97 ∷ 114 ∷ 101 ∷ 114 ∷ 32 ∷ 7 ∷ []

abbrev send : Request
send = record {
  method = "POST";
  path = "api" ∷ "sendCoin" ∷ [];
  authorization = authorization;
  auth_body = undecodable "EOF";
  send_coin_body = decoded (record { amount = pos 30; to_user = "alice" });
}

abbrev log_in : Request
log_in = record {
  method = "POST";
  path = "api" ∷ "auth" ∷ [];
  authorization = [];
  auth_body = decoded (record { username = "dave"; password = 4 ∷ [] });
  send_coin_body = undecodable "EOF";
}

serve_all-IsConsistent_example :
    IsConsistent
      (serve_all collate quiet plain_hasher one_token [] [] decoded
        (log_in ∷ send ∷ [])
        start).tables
serve_all-IsConsistent_example =
    serve_all-IsConsistent collate quiet plain_hasher one_token [] [] decoded (λ _ _ c. c)
      (log_in ∷ send ∷ []) start two_users-IsConsistent

serve-IsGated_example :
    ((d : Data) × HasToken one_token [] quiet start authorization d
      × (serve collate quiet plain_hasher one_token [] [] decoded send start
          ≡ dispatch collate quiet plain_hasher one_token [] [] decoded send
              (route "POST" ("api" ∷ "sendCoin" ∷ []))
              (some d.user_id)
              start))
    ⊎ IsRefused start (serve collate quiet plain_hasher one_token [] [] decoded send start)
unfolding is_open path_is
serve-IsGated_example =
    serve-IsGated collate quiet plain_hasher one_token [] [] decoded send start refl

abbrev gift : Transfer
gift = record {
  id = 9;
  dst_user_id = 2;
  src_user_id = 1;
  amount = pos 30;
  created_at = 0;
  dst_username = "bob";
  src_username = "alice";
}

info_response_lem_example : info_response 2 [] (gift ∷ []) (pos 1030) ≡ record {
  received = received_by 2 (gift ∷ []);
  sent = sent_by 2 (gift ∷ []);
  coins = pos 1030;
  inventory = map inventory_item [];
}
info_response_lem_example = info_response_lem 2 [] (gift ∷ []) (pos 1030)

abbrev small_gift : SendCoinRequest
small_gift = record { amount = pos 30; to_user = "bob" }

post_api_send_coin-Ends_example :
    Ends
      (Sends quiet 1 small_gift two_users)
      (SendFails quiet 1 small_gift two_users)
      (post_api_send_coin quiet (some 1) small_gift start)
post_api_send_coin-Ends_example =
    post_api_send_coin-Ends quiet 1 small_gift two_users (λ _ _ c. c) start two_users-IsConsistent
      refl

get_api_buy_item-Ends_example :
    Ends
      (BuysItem quiet 1 "cup" two_users)
      (BuyFails quiet 1 "cup" two_users)
      (get_api_buy_item quiet (some 1) "cup" start)
get_api_buy_item-Ends_example =
    get_api_buy_item-Ends quiet 1 "cup" two_users (λ _ _ c. c) start two_users-IsConsistent refl
