-- ===== src/Memory.antt =====
-- internal/memory: the ranking of the vector search.
pub mod Hybrid
