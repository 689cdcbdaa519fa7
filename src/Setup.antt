-- ===== src/Setup.antt =====
-- cmd/setup: the command that sets the application up, and its load test.
pub mod Users
pub mod Tokens
pub mod Apptest
pub mod Configuration
pub mod Command
