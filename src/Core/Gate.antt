-- ===== src/Core/Gate.antt =====
-- The FSM that the receivers of liteeth/core/ip.py and liteeth/core/icmp.py share: decide on the
-- first beat, then let the packet through or drop it. The library's depacketizer drives the sink.
pub mod Packet
use liteeth.Prelude.{Bool, true, false, ◌&&◌, if◌then◌else◌}
use liteeth.Stream.{Drive, Wires, wires, Beat, Step}

pub data State : Type 0 where
  idle receive drop : State

-- `decided` is what IDLE waits for beside `valid`, and `accepts` the test that it makes then.
unfoldable pub gate_step : Bool → Bool → Step State Beat Beat
gate_step decided accepts idle sink ready = (
  if sink.valid && decided then (if accepts then receive else drop) else idle,
  wires false false sink.beat,
)
gate_step decided accepts receive sink ready = (
  if sink.valid && ready && sink.beat.last then idle else receive,
  wires ready sink.valid sink.beat,
)
gate_step decided accepts drop sink ready =
    (if sink.valid && sink.beat.last then idle else drop, wires true false sink.beat)
