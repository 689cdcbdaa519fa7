-- ===== src/App.antt =====
-- internal/app: the files that the program's keys are in, and the set-up of the database.
pub mod Files
pub mod Keys
pub mod JwtSetup
pub mod Database
