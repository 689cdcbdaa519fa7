-- ===== src/Tests/Transfers.antt =====
-- The theorems on transfers, at concrete tables.
use merch.Base.{refl}
use merch.Base.Int.{pos}
use merch.Postgres.Triples.{Ends}
use merch.Transfers.Transferer.{transfer_by_username}
use merch.Transfers.Atomicity.{Succeeds, Fails, transfer_by_username-Ends}
use merch.Tests.Data.{two_users, two_users-IsConsistent, quiet, start}

transfer_by_username-Ends_example :
    Ends
      (Succeeds quiet "bob" 1 (pos 30) two_users)
      (Fails quiet "bob" 1 (pos 30) two_users)
      (transfer_by_username quiet "bob" 1 (pos 30) start)
transfer_by_username-Ends_example =
    transfer_by_username-Ends quiet "bob" 1 (pos 30) two_users (λ _ _ c. c) start
      two_users-IsConsistent refl
