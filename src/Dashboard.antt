-- ===== src/Dashboard.antt =====
-- internal/dashboard: the hub that broadcasts log entries.
pub mod Hub
