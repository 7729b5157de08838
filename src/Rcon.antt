-- ===== src/Rcon.antt =====
-- backend/rcon: the Source RCON protocol.
pub mod Packet
pub mod Client
mod Tests
