-- ===== src/Server/Postgres.antt =====
-- The repositories of internal/server/storage/postgres, each SQL statement as a function of the
-- tables: its WHERE clause, its defaults, its constraints and the rows that it returns.
pub mod Rows
pub mod Users
pub mod Sessions
pub mod Items
pub mod Mfa
pub mod Audit
