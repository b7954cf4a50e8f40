-- ===== src/Scheduler.antt =====
-- scheduler/: the containers that run.
pub mod Process
