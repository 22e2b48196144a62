-- ===== src/Server/Preserve.antt =====
-- What every request preserves: a property of the world that each repository operation, each draw
-- of randomness and each notification keeps is kept by every service, handler and request.
pub mod Laws
pub mod Services
pub mod Requests
pub mod Tables
