-- ===== src/Transfers.antt =====
-- internal/transfer: coin transfers between users.
pub mod Model
pub mod Transferer
pub mod Found
pub mod Writes
pub mod Outcome
pub mod Atomicity
pub mod Liveness
pub mod Getter
pub mod Ordering
pub mod Listing
