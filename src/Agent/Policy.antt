-- ===== src/Agent/Policy.antt =====
-- internal/agent/policy.go: the tool policy file, its validation and the policy hook.
pub mod Validate
pub mod Evaluate
pub mod Hook
pub mod Load
