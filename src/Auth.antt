-- ===== src/Auth.antt =====
-- internal/auth: authentication by password and by token.
pub mod Password
pub mod Login
pub mod Liveness
pub mod Claims
pub mod Tokens
pub mod Acceptance
