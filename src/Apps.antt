-- ===== src/Apps.antt =====
-- src/daemon/apps: the directory of an app.
pub mod Layout
mod Tests
