-- ===== src/Server/Service.antt =====
-- internal/server/service: the business logic over the repositories.
pub mod Audit
pub mod Auth
pub mod Mfa
pub mod Sync
pub mod Vault
