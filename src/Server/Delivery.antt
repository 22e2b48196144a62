-- ===== src/Server/Delivery.antt =====
-- The subscriptions of internal/server/service/sync.go: their steps, and what every reachable hub
-- satisfies.
pub mod Channels
pub mod Safety
pub mod Race
