-- ===== src/Backup.antt =====
-- src/daemon/backup
pub mod Glob
pub mod Filter
pub mod Walk
pub mod Storage
mod Tests
