-- ===== src/Client.antt =====
-- The client (internal/client).
pub mod LocalDb
pub mod Blocks
pub mod RoundTrip
pub mod Config
pub mod Grpc
pub mod LocalCache
pub mod Tui
mod Tests
