-- ===== src/Agent.antt =====
-- internal/agent and the parts of internal/context that it uses: conversations, tool policy,
-- approvals, hooks and session locks.
pub mod Message
pub mod Compaction
pub mod Pruning
pub mod Policy
pub mod SessionLock
pub mod Approval
pub mod Hooks
pub mod Session
