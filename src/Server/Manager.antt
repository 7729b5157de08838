-- ===== src/Server/Manager.antt =====
-- The manager of backend/server: manager.go, with ensureControlConfig of control.go and handleCrash of
-- crash.go. Every operation runs alone. What runs beside it in the program, the monitor of a process
-- and a delayed restart, is an operation of its own that may come at any later point.
pub mod State
pub mod Start
pub mod Stop
pub mod Admin
pub mod Stopping
pub mod Exits
pub mod Starts
pub mod Failures
pub mod Heaps
