-- ===== src/State.antt =====
-- The state package: workflow checkpoints, journals and locks on disk.
pub mod Types
pub mod Atomic
pub mod Journal
pub mod Manager
pub mod Lock
