-- ===== src/Tests/Apptest.antt =====
-- A load test of one user, in an empty shop.
use merch.Base.{◌+◌, ◌≡◌, refl, ap, arith, none, [], ◌∷◌}
use merch.Base.Lists.{length}
use merch.Base.Int.{pos}
use merch.Go.Errors.{Result, ok, wrap_result}
use merch.Postgres.Schema.{in_integer, ge_0}
use merch.Postgres.Session.{
  Env, World, delivered, begin, deferring_rollback, query, commit, defaults, on_tx, opened, publish,
}
use merch.Postgres.Rows.{collect_rows}
use merch.Users.Model.{row_to_user}
use merch.Users.Argon2.{hash}
use merch.Users.Creator.{
  create_users_data, create_temp_users, copy_from, insert_users, insert_each, insert_user, or_exist,
}
use merch.Auth.Tokens.{issue_token}
use merch.App.Keys.{read_file_ed25519_private_key}
use merch.Setup.Users.{generate_users, make_params, create_user_params}
use merch.Setup.Tokens.{generate_auth_tokens, issue_tokens}
use merch.Setup.Apptest.{SetupApptestParams, JsonEncoding, write_file_json, setup_apptest}
use merch.Setup.Apptest.Outcome.{IsSetUp, setup_apptest-IsSetUp}
use merch.Tests.Data.{shop, second_first}
use merch.Tests.Hashes.{stretching}
use merch.Tests.Tokens.{one_token}
use merch.Tests.Files.{Disk, disk, marked, blank, written}

-- The first new id is 2.
abbrev counting : Env
counting = record { reply = λ n. delivered; arrive = λ n t. t; uuid = λ n k. 2 + k; now = λ n. n }

abbrev params : SetupApptestParams
params = record {
  postgres_url = [];
  jwt_signature_key_file = "priv.pem";
  user_file = "user.json";
  user_count = pos 1;
  auth_token_file = "token.json";
}

abbrev lengths : JsonEncoding
lengths = record {
  encode_users = λ us. ok (length us ∷ []);
  encode_tokens = λ ts. ok (length ts ∷ []);
}

abbrev first_state : World × Disk
first_state =
    (record { tables = shop; pending = none; tick = 0 }, written "priv.pem" (45 ∷ 8 ∷ []) blank)

abbrev ran : Result Unit × (World × Disk)
ran =
    setup_apptest disk marked lengths stretching one_token counting second_first (λ i. 1) (λ i. 0)
      (λ url. ok tt) params first_state

returned : ran.0 ≡ ok tt
unfolding setup_apptest read_file_ed25519_private_key wrap_result generate_users hash make_params
    create_users_data begin deferring_rollback query create_temp_users copy_from create_user_params
    in_integer insert_users insert_each insert_user ge_0 collect_rows issue_token commit defaults
    on_tx opened publish write_file_json generate_auth_tokens issue_tokens or_exist row_to_user
returned = refl

setup_apptest-IsSetUp_example :
    IsSetUp disk marked lengths stretching one_token counting second_first
      (λ i. 1)
      (λ i. 0)
      params
      1
      (8 ∷ [])
      []
      5
      ran.1
unfolding read_file_ed25519_private_key wrap_result
setup_apptest-IsSetUp_example =
    setup_apptest-IsSetUp disk marked lengths stretching one_token counting second_first (λ i. 1)
      (λ i. 0) params refl (λ url. ok tt) 1 (8 ∷ []) [] 0 5 first_state ran.1 refl refl refl
      (λ i. omega arith) (omega arith) (ap (λ r. (r, ran.1)) returned)
