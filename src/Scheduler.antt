-- ===== src/Scheduler.antt =====
-- src/daemon/scheduler
pub mod Bits
pub mod Field
pub mod Schedule
pub mod Next
pub mod Job
pub mod Jobs
pub mod Running
mod Tests
