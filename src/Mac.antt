-- ===== src/Mac.antt =====
-- liteeth/mac/: the layer between the PHY and the protocol cores.
pub mod Crc
pub mod Gap
pub mod Padding
pub mod Preamble
pub mod Receive
pub mod RoundTrip
pub mod LastBe
pub mod Sram
