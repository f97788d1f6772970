-- ===== src/Health.antt =====
-- src/health: the health status that the server publishes.
pub mod Monitor
mod Tests
