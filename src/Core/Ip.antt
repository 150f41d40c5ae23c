-- ===== src/Core/Ip.antt =====
-- liteeth/core/ip.py
pub mod Checksum
pub mod Tx
pub mod Rx
