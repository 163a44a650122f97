-- ===== src/Tests.antt =====
-- Runs of the models on concrete inputs.
mod Compaction
mod Policy
mod Locking
mod Approving
mod Storage
mod Scheduling
mod Streams
mod Sessions
mod Turns
mod Metrics
mod Locks
mod Auditing
mod Tables
mod Routing
mod Ranking
