-- ===== src/Server.antt =====
-- backend/server: the life of the managed servers.
pub mod Digits
pub mod Store
pub mod Crash
pub mod Manager
pub mod Sleep
pub mod Memory
pub mod Properties
pub mod Upgrade
pub mod Steps
mod Tests
