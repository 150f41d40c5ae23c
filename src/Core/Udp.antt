-- ===== src/Core/Udp.antt =====
-- liteeth/core/udp.py. `LiteEthUDPTX` is `send_step`, with the lengths here; `LiteEthUDPRX` cuts a
-- datagram out of an IP packet, which Ethernet's padding may have made longer. The depacketizer is
-- the library's. `count` is a register of 16 bits, and `dw // 8` is `bytes`.
pub mod Trim
pub mod Datagram
use liteeth.Prelude.{ℕ, Bool, true, false, ◌&&◌, ◌||◌, ◌==◌, ◌+◌, ◌-◌, ◌%◌, ◌^◌, if◌then◌else◌}
use liteeth.Stream.{wires, Beat, Step}

abbrev pub udp_protocol : ℕ
udp_protocol = 0x11

abbrev pub udp_header_length : ℕ
udp_header_length = 8

-- `packetizer.sink.length` and the receiver's `source.length`, of 16 bits
unfoldable pub tx_length : ℕ → ℕ
tx_length length = (length + udp_header_length) % 2 ^ 16

unfoldable pub rx_length : ℕ → ℕ
rx_length length = (length + 2 ^ 16 - udp_header_length) % 2 ^ 16

-- What stands at the receiver on a beat: the depacketizer's beat and `length`, and the `protocol`
-- of the IP layer.
pub record Incoming : Type 0 where
  pub beat : Beat
  pub length : ℕ
  pub protocol : ℕ

pub data State : Type 0 where
  idle receive drop : State

pub record UdpRx : Type 0 where
  pub fsm : State
  pub count : ℕ

-- `source.last`: the packet's own, or the last beat of `source.length` bytes
abbrev pub source_last : ℕ → ℕ → Incoming → Bool
source_last bytes count x = x.beat.last || count == (rx_length x.length + 2 ^ 16 - bytes) % 2 ^ 16

-- `last_be` is not among the fields that are connected.
abbrev pub source_beat : ℕ → ℕ → Incoming → Beat
source_beat bytes count x = record {
  last = source_last bytes count x;
  data_word = x.beat.data_word;
  last_be = 0;
  error = x.beat.error;
}

unfoldable pub rx_fsm : ℕ → State → ℕ → Bool → Incoming → Bool → UdpRx
rx_fsm bytes idle count valid x ready = record {
  fsm = if valid then (if x.protocol == udp_protocol then receive else drop) else idle;
  count = 0;
}
rx_fsm bytes receive count valid x ready =
    let passes = valid && ready in
    record {
      fsm =
          if passes && x.beat.last
          then idle
          else if passes && source_last bytes count x
          then drop
          else receive;
      count = if passes then (count + bytes) % 2 ^ 16 else count;
    }
rx_fsm bytes drop count valid x ready = record {
  fsm = if valid && x.beat.last then idle else drop;
  count = count;
}

abbrev pub receives : State → Bool
receives idle = false
receives receive = true
receives drop = false

abbrev pub drops : State → Bool
drops idle = false
drops receive = false
drops drop = true

unfoldable pub rx_step : ℕ → Step UdpRx Incoming Beat
rx_step bytes r sink ready = (
  rx_fsm bytes r.fsm r.count sink.valid sink.beat ready,
  wires (receives r.fsm && ready || drops r.fsm) (receives r.fsm && sink.valid)
      (source_beat bytes r.count sink.beat),
)
