-- ===== src/Server.antt =====
-- cmd/server: the HTTP handlers and the authentication middleware.
pub mod Process
pub mod Responses
pub mod Handlers
pub mod Info
pub mod Middleware
pub mod Router
pub mod Wrapper
pub mod Consistency
pub mod Serving
pub mod Gate
pub mod History
pub mod Effects
pub mod Refusals
