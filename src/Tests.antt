-- ===== src/Tests.antt =====
-- Concrete runs of the theorems.
pub mod Data
pub mod Mac
pub mod Crc
pub mod Receive
pub mod Core
pub mod Sram
pub mod Pcs
pub mod Etherbone
pub mod UdpStream
pub mod Crossbar
