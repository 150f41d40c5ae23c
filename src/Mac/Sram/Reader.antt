-- ===== src/Mac/Sram/Reader.antt =====
-- liteeth/mac/sram.py: the reader. `cmd_fifo`, a FIFO of the library, drives its sink.
pub mod Send
use liteeth.Prelude.{ℕ, Bool, true, false, ◌+◌, ◌-◌, ◌%◌, ◌^◌, ◌&&◌, ◌==◌, leb, ltb, if◌then◌else◌}
use liteeth.Stream.{Drive, Wires, wires, Beat, Step}
use liteeth.Mac.Sram.{Slot, Mems, word_adr}

pub data State : Type 0 where
  idle send end_state : State

-- `adr` is what the read ports of the memories have latched.
pub record Reader : Type 0 where
  pub fsm : State
  pub counter : ℕ
  pub adr : ℕ

-- The mask of the last beat, by the two low bits of the length.
abbrev pub last_be_of : Bool → ℕ → ℕ
last_be_of true length_lsb =
    if length_lsb == 0 then 1 else if length_lsb == 1 then 8 else if length_lsb == 2 then 4 else 2
last_be_of false length_lsb =
    if length_lsb == 0 then 8 else if length_lsb == 1 then 1 else if length_lsb == 2 then 2 else 4

module _ (big_endian : Bool) (mems : Mems) (lengthbits adr_bits : ℕ) where
  abbrev pub source_beat : Bool → Slot → ℕ → Beat
  source_beat last cmd adr = record {
    last = last;
    data_word = mems cmd.slot adr;
    last_be = if last then last_be_of big_endian (cmd.length % 4) else 0;
    error = 0;
  }

  -- `length - 4` as the hardware takes it, at the width of the registers.
  unfoldable pub less_word : ℕ → ℕ
  less_word length = if ltb length 4 then length + 2 ^ lengthbits - 4 else length - 4

  abbrev pub is_last : ℕ → Slot → Bool
  is_last counter cmd = leb (less_word cmd.length) counter

  abbrev pub count_on : ℕ → ℕ
  count_on counter = (counter + 4) % 2 ^ lengthbits

  unfoldable pub read_fsm : State → ℕ → ℕ → Drive Slot → Bool → Reader × Wires Beat
  read_fsm idle counter adr sink ready = (
    record { fsm = if sink.valid then send else idle; counter = 0; adr = 0 },
    wires false false (source_beat false sink.beat adr),
  )
  read_fsm send counter adr sink ready = (
    record {
      fsm = if ready && is_last counter sink.beat then end_state else send;
      counter = if ready then count_on counter else counter;
      adr = word_adr adr_bits (if ready then count_on counter else counter);
    },
    wires false true (source_beat (is_last counter sink.beat) sink.beat adr),
  )
  read_fsm end_state counter adr sink ready = (
    record { fsm = idle; counter = counter; adr = 0 },
    wires true false (source_beat false sink.beat adr),
  )

  abbrev pub read_step : Step Reader Slot Beat
  read_step s sink ready = read_fsm s.fsm s.counter s.adr sink ready
