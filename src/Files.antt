-- ===== src/Files.antt =====
-- src/daemon/files
pub mod Error
pub mod Path
pub mod Scope
mod Tests
