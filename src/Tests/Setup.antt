-- ===== src/Tests/Setup.antt =====
-- Users and tokens of a load test.
use merch.Base.{◌≡◌, ◌⊎◌, refl, [], ◌∷◌, List}
use merch.Base.Int.{pos}
use merch.Go.Errors.{ok, wrap_result}
use merch.Postgres.Triples.{Ends}
use merch.Postgres.Splitting.{Splits, Anything}
use merch.Users.Model.{User}
use merch.Users.Creator.{DataCreatorCreateUserParams, create_users_data}
use merch.Users.Batch.Rows.{IsBatch}
use merch.Users.Batch.{create_users_data-Ends, create_users_data-IsConsistent}
use merch.Ledger.Invariant.{IsConsistent}
use merch.Auth.Tokens.{issue_token}
use merch.Setup.Users.{SetupUser, generate_users}
use merch.Setup.Users.Generation.{AreGenerated, generate_users-Splits}
use merch.Setup.Tokens.{issue_tokens, generate_auth_tokens}
use merch.Tests.Data.{two_users, two_users-IsConsistent, quiet, start, second_first}
use merch.Tests.Hashes.{stretching}
use merch.Tests.Tokens.{one_token}

abbrev newcomers : List DataCreatorCreateUserParams
newcomers =
    record { username = "dave"; password_hash = 4 ∷ []; balance = pos 1000 }
    ∷ record { username = "erin"; password_hash = 5 ∷ []; balance = pos 1000 }
    ∷ []

create_users_data-Ends_example :
    Ends
      (λ us v. IsBatch newcomers two_users us v.tables)
      (λ _ v. (v.tables ≡ two_users) ⊎ ((us : List User) × IsBatch newcomers two_users us v.tables))
      (create_users_data quiet second_first newcomers start)
create_users_data-Ends_example = create_users_data-Ends quiet second_first newcomers start

create_users_data-IsConsistent_example :
    IsConsistent (create_users_data quiet second_first newcomers start).1.tables
create_users_data-IsConsistent_example =
    create_users_data-IsConsistent quiet second_first newcomers start (λ n t c. c)
      (refl, (refl, tt)) two_users-IsConsistent

generate_users-Splits_example :
    Splits
      (AreGenerated stretching 2)
      Anything
      (generate_users stretching quiet second_first (pos 2) start)
generate_users-Splits_example = generate_users-Splits stretching quiet second_first 2 start

abbrev setup_users : List SetupUser
setup_users = record { id = 2; username = "bob"; password = 2 ∷ []; balance = pos 1000 } ∷ []

issued : generate_auth_tokens one_token [] (λ i. 1) (λ i. 0) setup_users ≡ ok ((7 ∷ []) ∷ [])
unfolding generate_auth_tokens issue_tokens issue_token wrap_result
issued = refl
