-- ===== src/Metrics.antt =====
-- backend/metrics: how a running server is observed.
pub mod Ping
