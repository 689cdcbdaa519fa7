-- ===== src/Tests/Purchases.antt =====
-- The theorems on purchases, items and balances, at concrete tables.
use merch.Base.{refl}
use merch.Postgres.Triples.{Ends}
use merch.Purchases.Purchaser.{purchase_by_name}
use merch.Purchases.Atomicity.{Succeeds, Fails, purchase_by_name-Ends}
use merch.Tests.Data.{two_users, two_users-IsConsistent, quiet, start}

purchase_by_name-Ends_example :
    Ends
      (Succeeds quiet "cup" 1 two_users)
      (Fails quiet "cup" 1 two_users)
      (purchase_by_name quiet "cup" 1 start)
purchase_by_name-Ends_example =
    purchase_by_name-Ends quiet "cup" 1 two_users (λ _ _ c. c) start two_users-IsConsistent refl
