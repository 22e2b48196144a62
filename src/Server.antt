-- ===== src/Server.antt =====
-- The gRPC server (internal/server, internal/shared/jwt, internal/shared/audit).
pub mod Storage
pub mod World
pub mod Postgres
pub mod Jwt
pub mod Service
pub mod Middleware
pub mod Handler
pub mod App
pub mod Access
pub mod Preserve
pub mod Trail
pub mod Isolation
pub mod Integrity
pub mod Crud
pub mod Pages
pub mod Tests
pub mod Wire
pub mod Logins
pub mod Delivery
