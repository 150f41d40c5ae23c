-- ===== src/Core/Ip/Rx.antt =====
-- `LiteEthIPRX` of liteeth/core/ip.py: the receiver computes the header's checksum while the first
-- beat waits, and then decides. The depacketizer is the library's; it holds a packet's header.
pub mod Decide
use liteeth.Prelude.{ℕ, Bool, true, false, not, ◌&&◌, ◌==◌, ◌+◌, ◌-◌, ◌*◌, ◌%◌, ◌^◌, List}
use liteeth.Stream.{Beat, Step}
use liteeth.Core.Gate.{State, gate_step}
use liteeth.Core.Ip.Checksum.{Checksum, value, done, tick}

-- The fields of the header that the receiver reads; `words` is the same header, in words.
pub record Header : Type 0 where
  pub version : ℕ
  pub ihl : ℕ
  pub total_length : ℕ
  pub sender_ip : ℕ
  pub target_ip : ℕ
  pub words : List ℕ

pub record IpRx : Type 0 where
  pub fsm : State
  pub checksum : Checksum

abbrev pub accepts : ℕ → Header → Checksum → Bool
accepts ip_address h checksum =
    h.target_ip == ip_address && h.version == 0x4 && h.ihl == 0x5 && value checksum == 0

unfoldable pub rx_step : ℕ → Header → Step IpRx Beat Beat
rx_step ip_address h r sink ready =
    let (fsm, wires) =
      gate_step (done false r.checksum) (accepts ip_address h r.checksum) r.fsm sink ready in
    (record { fsm = fsm; checksum = tick false true (not sink.valid) h.words r.checksum }, wires)

-- `source.length`, of 16 bits
unfoldable pub length_of : Header → ℕ
length_of h = (h.total_length + 2 ^ 16 - 0x5 * 4) % 2 ^ 16
