-- ===== src/Cron.antt =====
-- The cron package: schedules, the job list and the poll of the scheduler.
pub mod Types
pub mod Schedule
pub mod Jobs
pub mod Merge
