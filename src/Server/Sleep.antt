-- ===== src/Server/Sleep.antt =====
-- backend/server/sleep.go: auto-sleep, its proxies and the idle watcher.
pub mod Proxy
pub mod Wake
pub mod Idle
pub mod Idling
pub mod Waking
pub mod Door
pub mod Joining
mod Tests
