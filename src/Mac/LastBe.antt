-- ===== src/Mac/LastBe.antt =====
-- liteeth/mac/last_be.py, at 8 bits, where `last_be` is one bit. Behind a converter to 8 bits a
-- packet may go on after its last byte; the transmitter's module drops the rest.
pub mod Cut
use liteeth.Prelude.{Bool, true, false, not, ◌&&◌, ◌%◌, ◌==◌, if◌then◌else◌}
use liteeth.Stream.{wires, Beat, Step}

-- `wait_last` is the state WAIT-LAST.
pub data State : Type 0 where
  copy wait_last : State

-- `sink.last_be`
abbrev pub is_last_byte : Beat → Bool
is_last_byte x = x.last_be % 2 == 1

abbrev pub source_beat : Beat → Beat
source_beat x = record x { last = is_last_byte x; last_be = 0 }

-- `LiteEthMACTXLastBE`
unfoldable pub tx_step : Step State Beat Beat
tx_step copy sink ready = (
  if sink.valid && ready && is_last_byte sink.beat && not sink.beat.last then wait_last else copy,
  wires ready sink.valid (source_beat sink.beat),
)
tx_step wait_last sink ready = (
  if sink.valid && sink.beat.last then copy else wait_last,
  wires true false (source_beat sink.beat),
)

-- `LiteEthMACRXLastBE`
unfoldable pub rx_step : Step (Unit {0}) Beat Beat
rx_step s sink ready =
    (tt, wires ready sink.valid (record sink.beat { last_be = if sink.beat.last then 1 else 0 }))
