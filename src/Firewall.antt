-- ===== src/Firewall.antt =====
-- src/daemon/firewall
pub mod Ports
pub mod Model
pub mod Presets
pub mod Render
pub mod Host
pub mod Files
pub mod Triple
pub mod Edit
pub mod Apply
pub mod Window
pub mod Runs
mod Tests
