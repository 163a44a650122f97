-- ===== src/Observability.antt =====
-- internal/observability: the latency windows.
pub mod Latency
