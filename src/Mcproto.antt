-- ===== src/Mcproto.antt =====
-- backend/mcproto/protocol.go: the part of the Minecraft protocol that the status poller and the
-- sleep proxy share.
pub mod Stream
pub mod VarInt
pub mod Packet
pub mod Handshake
pub mod Messages
mod Tests
