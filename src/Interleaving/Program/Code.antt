-- ===== src/Interleaving/Program/Code.antt =====
-- The two transactions of the code, and the statements of a job.
use merch.Base.{◌≡◌}
use merch.Base.Int.{ℤ}
use merch.Postgres.Schema.{Uuid}
use merch.Postgres.Session.{Env, World}
use merch.Items.{Item}
use merch.Transfers.Transferer.{transfer_in_tx}
use merch.Purchases.Purchaser.{purchase_in_tx}
use merch.Interleaving.{sending, buying}
use merch.Interleaving.Program.{run_job, discard}
use merch.Interleaving.Program.Sending.{transfer_in_tx-run_job}
use merch.Interleaving.Program.Buying.{purchase_in_tx-run_job}

module _ (env : Env) where
  -- What TransferByUsername and PurchaseByName run between Begin and the deferred Rollback is, on
  -- every branch, the same as the statements of a job one after the other: the query FOR UPDATE,
  -- the computed balances, the INSERT, the updates in their order, COMMIT. For the purchase this is
  -- said up to the row that it returns.
  pub in_tx-run_job :
      (dst src : Uuid) (amount : ℤ) (i : Item) (user : Uuid) (w : World)
      → (transfer_in_tx env dst src amount w ≡ run_job env (sending dst src amount) w)
        × (discard (purchase_in_tx env i user) w ≡ run_job env (buying i user) w)
  in_tx-run_job dst src amount i user w =
      (transfer_in_tx-run_job env dst src amount w, purchase_in_tx-run_job env i user w)
