-- ===== src/Tests/Core.antt =====
-- The modules of liteeth/core/ on concrete inputs.
pub mod Ip
pub mod Icmp
pub mod Arp
