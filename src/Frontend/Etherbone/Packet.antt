-- ===== src/Frontend/Etherbone/Packet.antt =====
-- liteeth/frontend/etherbone.py: `LiteEthEtherbonePacketTX`, `LiteEthEtherbonePacketRX` and
-- `LiteEthEtherboneProbe`. The packetizer and the depacketizer are the library's.
pub mod Probe
use liteeth.Prelude.{ℕ, Bool, true, false, ◌+◌, ◌-◌, ◌/◌, ◌%◌, ◌^◌, ◌&&◌, not, ◌==◌, if◌then◌else◌}
use liteeth.Stream.{Drive, Wires, wires, Step}

abbrev pub etherbone_magic : ℕ
etherbone_magic = 0x4e6f

abbrev pub etherbone_version : ℕ
etherbone_version = 1

abbrev pub etherbone_packet_header_length : ℕ
etherbone_packet_header_length = 8

-- A beat with the header's fields; those of UDP go with them.
pub record PacketBeat : Type 0 where
  pub last : Bool
  pub data_word : ℕ
  pub magic : ℕ
  pub version : ℕ
  pub addr_size : ℕ
  pub port_size : ℕ
  pub pf : Bool
  pub pr : Bool
  pub nr : Bool

-- What the transmitter gives the packetizer for a beat of its sink.
abbrev pub with_header : PacketBeat → PacketBeat
with_header x = record x {
  magic = etherbone_magic;
  version = etherbone_version;
  port_size = 32 / 8;
  addr_size = 32 / 8;
}

-- `source.length`, of 16 bits, on the way out and on the way in
abbrev pub tx_length : ℕ → ℕ
tx_length length = (length + etherbone_packet_header_length) % 2 ^ 16

abbrev pub rx_length : ℕ → ℕ
rx_length length = (length + 2 ^ 16 - etherbone_packet_header_length) % 2 ^ 16

pub data TxState : Type 0 where
  idle send : TxState

unfoldable pub tx_step : Step TxState PacketBeat PacketBeat
tx_step idle sink ready = (if sink.valid then send else idle, wires false false sink.beat)
tx_step send sink ready = (
  if sink.valid && (sink.beat.last && ready) then idle else send,
  wires ready sink.valid sink.beat,
)

pub data RxState : Type 0 where
  idle receive drop : RxState

-- `keep` of the receiver's source: the other fields are not driven.
abbrev pub kept : PacketBeat → PacketBeat
kept x = record x { magic = 0; version = 0; addr_size = 0; port_size = 0 }

unfoldable pub rx_step : Step RxState PacketBeat PacketBeat
rx_step idle sink ready = (
  if sink.valid then (if sink.beat.magic == etherbone_magic then receive else drop) else idle,
  wires false false (kept sink.beat),
)
rx_step receive sink ready = (
  if sink.valid && ready && sink.beat.last then idle else receive,
  wires ready sink.valid (kept sink.beat),
)
rx_step drop sink ready =
    (if sink.valid && sink.beat.last then idle else drop, wires true false (kept sink.beat))

-- `dispatcher.sel`, of one bit: the sink of a packet, 0 for the probe and 1 for the records.
abbrev pub sel : PacketBeat → ℕ
sel x = if x.pf then 0 else 1

pub data ProbeState : Type 0 where
  idle probe_response : ProbeState

abbrev pub probe_answer : PacketBeat → PacketBeat
probe_answer x = record x { pf = false; pr = true }

unfoldable pub probe_step : Step ProbeState PacketBeat PacketBeat
probe_step idle sink ready =
    (if sink.valid then probe_response else idle, wires false false sink.beat)
probe_step probe_response sink ready = (
  if sink.valid && ready && sink.beat.last then idle else probe_response,
  wires ready sink.valid (probe_answer sink.beat),
)
