-- ===== src/Core/Ip/Tx/Multicast.antt =====
-- The addresses that `LiteEthIPTX` maps by itself.
use liteeth.Prelude.{ℕ, ◌/◌, ◌%◌, ◌^◌, ◌<◌, ◌≡◌, ◌↔◌, arith}
use liteeth.Core.Ip.Tx.{multicast_mac, mcast_oui}

-- Two IP addresses are mapped to the same multicast MAC address just when their low 23 bits agree,
-- and that address fits 48 bits and has the multicast prefix in its upper 24.
pub multicast_mac_iff :
    (a b : ℕ)
    → ((multicast_mac a ≡ multicast_mac b) ↔ (a % 2 ^ 23 ≡ b % 2 ^ 23))
      × (multicast_mac a < 2 ^ 48)
      × (multicast_mac a / 2 ^ 24 ≡ mcast_oui)
unfolding multicast_mac
multicast_mac_iff a b = ((λ e. omega arith, λ e. omega arith), omega arith, omega arith)
