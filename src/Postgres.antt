-- ===== src/Postgres.antt =====
-- The database as the program sees it: the schema, a session with its transactions, and pgx's
-- collectors of rows. The SQL statements themselves stand beside the Go functions that send them.
pub mod Delivery
pub mod Schema
pub mod Session
pub mod Rows
pub mod Triples
pub mod Transactions
pub mod Pool
pub mod Keeping
pub mod Splitting
