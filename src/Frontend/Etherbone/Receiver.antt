-- ===== src/Frontend/Etherbone/Receiver.antt =====
-- liteeth/frontend/etherbone.py: `LiteEthEtherboneRecordReceiver` behind its FIFO of packets.
pub mod Decode
pub mod Requests
pub mod Mixed
use liteeth.Prelude.{ℕ, Bool, true, false, ◌+◌, ◌-◌, ◌%◌, ◌&&◌, not, ◌==◌, if◌then◌else◌}
use liteeth.Stream.{Drive, Wires, wires, Step}
use liteeth.Frontend.Etherbone.{RecordBeat, Mmap, word_of}

pub data State : Type 0 where
  idle receive_writes receive_base_ret_addr receive_reads : State

pub record Receiver : Type 0 where
  pub fsm : State
  pub base_addr : ℕ
  pub count : ℕ

-- What a beat is in each of the two states that pass it on.
abbrev pub write_beat : ℕ → ℕ → RecordBeat → Mmap
write_beat base_addr count x = record {
  last = count == x.wcount - 1;
  we = true;
  count = x.wcount;
  base_addr = 0;
  be = x.byte_enable;
  addr = word_of base_addr + count;
  data_word = x.data_word;
}

abbrev pub read_beat : ℕ → ℕ → RecordBeat → Mmap
read_beat base_addr count x = record {
  last = count == x.rcount - 1;
  we = false;
  count = x.rcount;
  base_addr = base_addr;
  be = 0;
  addr = word_of x.data_word;
  data_word = 0;
}

abbrev pub no_beat : Mmap
no_beat = record {
  last = false;
  we = false;
  count = 0;
  base_addr = 0;
  be = 0;
  addr = 0;
  data_word = 0;
}

abbrev pub count_on : ℕ → ℕ
count_on count = (count + 1) % 512

-- Where IDLE goes with the first word of a record.
abbrev pub entered : RecordBeat → State
entered x =
    if not (x.wcount == 0)
    then receive_writes
    else if not (x.rcount == 0)
    then receive_reads
    else idle

unfoldable pub receive_fsm : State → ℕ → ℕ → Drive RecordBeat → Bool → Receiver × Wires Mmap
receive_fsm idle base count sink ready = (
  record {
    fsm = if sink.valid then entered sink.beat else idle;
    base_addr = if sink.valid then sink.beat.data_word else base;
    count = 0;
  },
  wires true false no_beat,
)
receive_fsm receive_writes base count sink ready =
    let x = write_beat base count sink.beat in
    let passes = sink.valid && ready in
    (
      record {
        fsm =
            if passes && x.last
            then (if not (sink.beat.rcount == 0) then receive_base_ret_addr else idle)
            else receive_writes;
        base_addr = base;
        count = if passes then count_on count else count;
      },
      wires ready sink.valid x,
    )
receive_fsm receive_base_ret_addr base count sink ready = (
  record {
    fsm = if sink.valid then receive_reads else receive_base_ret_addr;
    base_addr = if sink.valid then sink.beat.data_word else base;
    count = 0;
  },
  wires false false no_beat,
)
receive_fsm receive_reads base count sink ready =
    let x = read_beat base count sink.beat in
    let passes = sink.valid && ready in
    (
      record {
        fsm = if passes && x.last then idle else receive_reads;
        base_addr = base;
        count = if passes then count_on count else count;
      },
      wires ready sink.valid x,
    )

abbrev pub receive_step : Step Receiver RecordBeat Mmap
receive_step s sink ready = receive_fsm s.fsm s.base_addr s.count sink ready
