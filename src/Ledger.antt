-- ===== src/Ledger.antt =====
-- What the database is for: every user's coins, and the history that accounts for them.
pub mod Accounts
pub mod Invariant
pub mod Change
pub mod Preservation
