-- ===== src/Core/Arp.antt =====
-- liteeth/core/arp.py
pub mod Table
pub mod Packet
