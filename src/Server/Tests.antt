-- ===== src/Server/Tests.antt =====
-- A server on which the theorems are tried out.
pub mod Demo
mod Requests
mod Data
mod Accounts
mod Subscriptions
