-- ===== src/Database.antt =====
-- The submission database (codex/submission_database.go): its rows, what a transaction reads of them,
-- and the write that ends it. SQLite and JSON are interfaces, with the documented behaviour that the code
-- relies on as their laws.
pub mod Keys
pub mod Rows
pub mod Session
pub mod Written
pub mod Records
pub mod Read
pub mod Durable
pub mod Recovered
