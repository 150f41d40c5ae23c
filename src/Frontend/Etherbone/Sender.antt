-- ===== src/Frontend/Etherbone/Sender.antt =====
-- liteeth/frontend/etherbone.py: `LiteEthEtherboneRecordSender` behind its FIFO of packets, which
-- has a packet whole before it shows its first beat.
pub mod Answers
use liteeth.Prelude.{ℕ, Bool, true, false, ◌+◌, ◌*◌, ◌&&◌, not, ◌==◌, if◌then◌else◌, List, [], ◌∷◌}
use liteeth.Stream.{Drive, Wires, wires, Step, accept, emit}
use liteeth.Frontend.Etherbone.{Mmap, RecordBeat}

pub data State : Type 0 where
  idle send_base_address send_data : State

-- The header's fields go with every beat.
abbrev pub record_beat : Bool → ℕ → Mmap → RecordBeat
record_beat last data_word x = record {
  last = last;
  data_word = data_word;
  wcount = if x.we then x.count else 0;
  rcount = if x.we then 0 else x.count;
  byte_enable = x.be;
}

unfoldable pub send_fsm : Step State Mmap RecordBeat
send_fsm idle sink ready = (
  if sink.valid then send_base_address else idle,
  wires false false (record_beat false 0 sink.beat),
)
send_fsm send_base_address sink ready = (
  if ready then send_data else send_base_address,
  wires false true (record_beat false sink.beat.base_addr sink.beat),
)
send_fsm send_data sink ready = (
  if ready && sink.beat.last then idle else send_data,
  wires ready true (record_beat sink.beat.last sink.beat.data_word sink.beat),
)

-- The FIFO's source: its oldest beat, or what its wires hold when it is empty.
abbrev pub fifo_source : Mmap → List Mmap → Drive Mmap
fifo_source stale [] = record { valid = false; beat = stale }
fifo_source stale (x ∷ xs) = record { valid = true; beat = x }

pub record Sender : Type 0 where
  pub fsm : State
  pub fifo : List Mmap

-- A cycle: `source.ready`, and the wires of an empty FIFO.
pub record Inputs : Type 0 where
  pub ready : Bool
  pub stale : Mmap

abbrev pub sender_step : Sender → Inputs → Sender × List RecordBeat
sender_step s i =
    let d = fifo_source i.stale s.fifo in
    let (fsm, w) = send_fsm s.fsm d i.ready in
    (
      record { fsm = fsm; fifo = accept (d.valid && w.ready) s.fifo },
      emit (w.source.valid && i.ready) w.source.beat,
    )

-- `source.length` of `LiteEthEtherboneRecord`, for the counts that are in the sender.
abbrev pub record_length : ℕ → ℕ → ℕ
record_length wcount rcount =
    4 + (if wcount == 0 then 0 else 4) + wcount * 4 + (if rcount == 0 then 0 else 4) + rcount * 4
