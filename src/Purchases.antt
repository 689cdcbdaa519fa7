-- ===== src/Purchases.antt =====
-- internal/purchase: purchases of items.
pub mod Model
pub mod Purchaser
pub mod Writes
pub mod Outcome
pub mod Atomicity
pub mod Liveness
pub mod Getter
pub mod Counting
pub mod Listing
