-- ===== src/Console.antt =====
-- src/daemon/console
pub mod Hub
mod Tests
