-- ===== src/Server/Middleware.antt =====
-- internal/server/middleware: the interceptors that stand before the handlers.
pub mod Metadata
pub mod Auth
pub mod RateLimit
