-- ===== src/Core/Send.antt =====
-- The FSM that the transmitters of liteeth/core/icmp.py and liteeth/core/udp.py share. The
-- library's packetizer drives the sink.
pub mod Packets
use liteeth.Prelude.{Bool, true, false, ◌&&◌, if◌then◌else◌}
use liteeth.Stream.{wires, Beat, Step}

pub data State : Type 0 where
  idle send : State

unfoldable pub send_step : Step State Beat Beat
send_step idle sink ready = (if sink.valid then send else idle, wires false false sink.beat)
send_step send sink ready =
    (if sink.valid && ready && sink.beat.last then idle else send, wires ready sink.valid sink.beat)
