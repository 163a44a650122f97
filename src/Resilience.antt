-- ===== src/Resilience.antt =====
-- internal/resilience: the retry loop.
pub mod Retry
