-- ===== src/Main.antt =====
-- The server program application/filehub/main.cc.
pub mod Connections
pub mod Startup
