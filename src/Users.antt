-- ===== src/Users.antt =====
-- internal/user: users, how they are read and created, and their password hashes.
pub mod Model
pub mod Hashing
pub mod Argon2
pub mod Getter
pub mod Creator
pub mod Balance
pub mod Lookup
pub mod Registration
pub mod Selection
pub mod Batch
pub mod Creation
