-- ===== src/Wireguard.antt =====
-- src/daemon/wireguard/model.rs
pub mod Address
pub mod Peers
pub mod Check
pub mod Normalize
pub mod Conf
pub mod Routes
mod Tests
