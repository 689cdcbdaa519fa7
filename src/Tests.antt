-- ===== src/Tests.antt =====
-- Concrete runs: the theorems at tables, requests and tokens that can be written down.
mod Data
mod Tokens
mod Logins
mod Transfers
mod Purchases
mod Requests
mod Refusals
mod Hashes
mod Liveness
mod Files
mod Database
mod Setup
mod Listings
mod Apptest
mod Startup
mod Interleaving
mod Json
mod Wire
mod Client
