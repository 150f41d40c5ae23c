-- ===== src/Frontend.antt =====
-- liteeth/frontend/: what stands on the protocol cores.
pub mod Etherbone
pub mod UdpStream
