-- ===== src/Context.antt =====
-- internal/context: the checkpoint database.
pub mod Checkpoints
pub mod Idempotency
pub mod Pairing
