-- ===== src/Scheduler.antt =====
-- app/scheduler/: the jobs that check every device, and the background scheduler that runs them.
pub mod Jobs
pub mod Lifecycle
