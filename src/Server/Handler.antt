-- ===== src/Server/Handler.antt =====
-- internal/server/handler: the gRPC methods.
pub mod Auth
pub mod Vault
pub mod Sync
