-- ===== src/Mac/Crc/Checker.antt =====
-- `LiteEthMACCRCChecker` of liteeth/mac/crc.py, with the CRC-32 register. Its FIFO is the library's.
pub mod Lost
use liteeth.Prelude.{ℕ, Bool, true, false, not, ◌+◌, ◌%◌, ◌&&◌, ◌||◌, ◌==◌, if◌then◌else◌, List}
use liteeth.Stream.{wires, Beat, Step}
use liteeth.Stream.Fifo.{Fifo}
use liteeth.Mac.Crc.Crc32.{init, clock, error}
use liteeth.Mac.Crc.Inserter.{ratio}

pub data State : Type 0 where
  reset idle copy : State

pub record CrcChecker (F : Type 0) : Type 0 where
  pub fsm : State
  pub reg : List Bool
  pub fifo : F

abbrev pub resets : State → Bool
resets reset = true
resets idle = false
resets copy = false

-- The FSM's next state, where a beat enters.
abbrev pub next_fsm : State → Bool → Bool → State
next_fsm reset enters last = idle
next_fsm idle enters last = if enters then copy else idle
next_fsm copy enters last = if enters && last then reset else copy

-- `sink.error | crc.error`
abbrev pub or_error : ℕ → Bool → ℕ
or_error e b = if b && e % 2 == 0 then e + 1 else e

module _ (dw : ℕ) (k : Fifo Beat) where
  unfoldable pub check_step : Step (CrcChecker k.Carrier) Beat Beat
  check_step r sink ready =
      let full = k.level r.fifo == ratio dw in
      let valid = sink.valid && full in
      let leaves = valid && ready in
      let enters = sink.valid && (not full || leaves) in
      (
        record {
          fsm = next_fsm r.fsm enters sink.beat.last;
          reg = clock dw (resets r.fsm) (not (resets r.fsm) && enters) r.reg sink.beat.data_word;
          fifo = k.clock (resets r.fsm) enters sink.beat leaves r.fifo;
        },
        wires enters valid (record (k.payload r.fifo) {
          last = sink.beat.last;
          error = or_error sink.beat.error (error dw r.reg sink.beat.data_word);
        }),
      )

  -- The checker's `error` output, with the sink and the `ready` of the source.
  unfoldable pub check_error : CrcChecker k.Carrier → Bool → Beat → Bool
  check_error r valid x =
      valid && k.level r.fifo == ratio dw && x.last && error dw r.reg x.data_word
