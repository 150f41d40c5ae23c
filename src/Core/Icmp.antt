-- ===== src/Core/Icmp.antt =====
-- liteeth/core/icmp.py. `LiteEthICMPTX` is `send_step`, `LiteEthICMPRX` the gate with the test
-- of the protocol; the echo's buffer is the library's.
pub mod Echo
use liteeth.Prelude.{ℕ, true, ◌==◌, ◌+◌, ◌-◌, ◌%◌, ◌^◌, leb, if◌then◌else◌}
use liteeth.Stream.{Beat, Step}
use liteeth.Core.Gate.{State, gate_step}

abbrev icmp_protocol : ℕ
icmp_protocol = 0x01

abbrev icmp_header_length : ℕ
icmp_header_length = 8

-- `LiteEthICMPRX`, with the protocol that the IP layer reports.
unfoldable pub rx_step : ℕ → Step State Beat Beat
rx_step protocol = gate_step true (protocol == icmp_protocol)

-- `source.length` of the transmitter and of the receiver, of 16 bits
unfoldable pub tx_length : ℕ → ℕ
tx_length length = (length + icmp_header_length) % 2 ^ 16

unfoldable pub rx_length : ℕ → ℕ
rx_length length = (length + 2 ^ 16 - icmp_header_length) % 2 ^ 16

-- The checksum that `LiteEthICMPEcho` answers with, of 16 bits
unfoldable pub echo_checksum : ℕ → ℕ
echo_checksum checksum = (checksum + 0x800 + (if leb 0xf800 checksum then 1 else 0)) % 2 ^ 16

-- `source.msgtype`
abbrev pub echo_msgtype : ℕ
echo_msgtype = 0x0
