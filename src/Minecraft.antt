-- ===== src/Minecraft.antt =====
-- backend/minecraft: versions of the game and the Java runtimes that they need.
pub mod Java
mod Tests
