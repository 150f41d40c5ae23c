-- ===== src/Mac/Sram/Writer.antt =====
-- liteeth/mac/sram.py: the writer. Its sink is always ready, so the wires of each cycle are its
-- whole input.
pub mod Store
pub mod Frame
pub mod Packets
pub mod Bounds
use Prim.Native.Nat.{bit_and}
use liteeth.Prelude.{ℕ, Bool, true, false, ◌+◌, ◌%◌, ◌^◌, ◌&&◌, not, ◌==◌, if◌then◌else◌}
use liteeth.Prelude.{List, [], ◌∷◌, ◌++◌, Option, none, some}
use liteeth.Stream.{Drive, Beat}
use liteeth.Mac.Sram.{eth_mtu, Slot, Mems, write, word_adr}

pub data State : Type 0 where
  idle write_state discard discard_remaining terminate : State

-- `errors` is the CSR `_errors`; `mems` stands with the registers.
pub record Writer : Type 0 where
  pub fsm : State
  pub counter : ℕ
  pub slot : ℕ
  pub errors : ℕ
  pub mems : Mems

-- A cycle: the wires of the sink, and `stat_fifo.sink.ready`.
pub record Cycle : Type 0 where
  pub sink : Drive Beat
  pub room : Bool

-- The number of bytes of a beat, by `last_be`.
abbrev pub inc : Bool → ℕ → ℕ
inc true last_be =
    if last_be == 8 then 1 else if last_be == 4 then 2 else if last_be == 2 then 3 else 4
inc false last_be =
    if last_be == 1 then 1 else if last_be == 2 then 2 else if last_be == 4 then 3 else 4

abbrev pub has_error : Beat → Bool
has_error x = not (bit_and x.error x.last_be == 0)

-- The `ongoing` of the FSM.
abbrev pub ongoing : State → ℕ → Cycle → Bool
ongoing idle counter c = c.sink.valid && c.room
ongoing write_state counter c = c.sink.valid && not (counter == eth_mtu)
ongoing discard counter c = false
ongoing discard_remaining counter c = false
ongoing terminate counter c = false

abbrev pub lengthbits : ℕ
lengthbits = 32

-- What passes `stat_fifo.sink` in a cycle: without room the slot is offered in vain.
abbrev pub pushed : State → ℕ → ℕ → Cycle → List Slot
pushed terminate counter slot c =
    if c.room then record { slot = slot; length = counter } ∷ [] else []
pushed _ counter slot c = []

abbrev pub next_fsm : State → ℕ → Cycle → State
next_fsm idle counter c =
    if c.sink.valid then (if c.room then write_state else discard_remaining) else idle
next_fsm write_state counter c =
    if c.sink.valid
    then (if c.sink.beat.last
        then (if has_error c.sink.beat then discard else terminate)
        else if counter == eth_mtu
        then discard_remaining
        else write_state)
    else write_state
next_fsm discard counter c = idle
next_fsm discard_remaining counter c =
    if c.sink.valid && c.sink.beat.last then terminate else discard_remaining
next_fsm terminate counter c = idle

module _ (big_endian : Bool) (slotbits adr_bits : ℕ) where
  abbrev pub next_counter : State → ℕ → Cycle → ℕ
  next_counter discard counter c = 0
  next_counter terminate counter c = 0
  next_counter s counter c =
      if ongoing s counter c
      then (counter + inc big_endian c.sink.beat.last_be) % 2 ^ lengthbits
      else counter

  abbrev pub next_slot : State → ℕ → ℕ
  next_slot terminate slot = (slot + 1) % 2 ^ slotbits
  next_slot _ slot = slot

  abbrev pub next_errors : State → ℕ → Cycle → ℕ
  next_errors idle errors c = if c.sink.valid && not c.room then (errors + 1) % 2 ^ 32 else errors
  next_errors _ errors c = errors

  abbrev pub next_mems : State → ℕ → ℕ → Cycle → Mems → Mems
  next_mems s counter slot c mems =
      if c.sink.valid && ongoing s counter c
      then write slot (word_adr adr_bits counter) c.sink.beat.data_word mems
      else mems

  unfoldable pub write_step : Writer → Cycle → Writer × List Slot
  write_step w c = (
    record {
      fsm = next_fsm w.fsm w.counter c;
      counter = next_counter w.fsm w.counter c;
      slot = next_slot w.fsm w.slot;
      errors = next_errors w.fsm w.errors c;
      mems = next_mems w.fsm w.counter w.slot c w.mems;
    },
    pushed w.fsm w.counter w.slot c,
  )

abbrev pub at : State → ℕ → ℕ → ℕ → Mems → Writer
at s counter slot errors mems = record {
  fsm = s;
  counter = counter;
  slot = slot;
  errors = errors;
  mems = mems;
}
