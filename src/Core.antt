-- ===== src/Core.antt =====
-- liteeth/core/: ARP, IP, ICMP and UDP.
pub mod Arp
pub mod Gate
pub mod Send
pub mod Ip
pub mod Icmp
pub mod Udp
