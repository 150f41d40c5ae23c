-- ===== src/Mac/Preamble.antt =====
-- liteeth/mac/preamble.py: the preamble inserter and the preamble checker.
pub mod Insert
pub mod Frames
pub mod Check
pub mod RoundTrip
use liteeth.Prelude.{Bool, true, false, not, ℕ, ◌+◌, ◌-◌, ◌*◌, ◌/◌, ◌%◌, ◌^◌, ◌&&◌, ◌==◌}
use liteeth.Prelude.{if◌then◌else◌}
use liteeth.Stream.{Drive, Wires, wires, Beat, Step}

-- `eth_preamble` of liteeth/common.py
abbrev pub eth_preamble : ℕ
eth_preamble = 0xd555555555555555

pub data InserterState : Type 0 where
  idle preamble copy : InserterState

pub record Inserter : Type 0 where
  pub fsm : InserterState
  pub count : ℕ

-- `chooser(preamble, count, source.data)`: the word at index `count`, lowest first.
unfoldable pub preamble_word : ℕ → ℕ → ℕ
preamble_word dw count = eth_preamble / 2 ^ (dw * count) % 2 ^ dw

-- `count` is a register of `bits` bits.
module _ (dw bits : ℕ) where
  unfoldable pub insert_fsm : InserterState → ℕ → Drive Beat → Bool → Inserter × Wires Beat
  insert_fsm idle count sink ready = (
    record { fsm = if sink.valid then preamble else idle; count = 0 },
    wires (if sink.valid then false else true) false sink.beat,
  )
  insert_fsm preamble count sink ready =
      let at_end = count == 64 / dw - 1 in
      (
        record {
          fsm = if ready && at_end then copy else preamble;
          count = if ready && not at_end then (count + 1) % 2 ^ bits else count;
        },
        wires false true (record {
          last = false;
          data_word = preamble_word dw count;
          last_be = sink.beat.last_be;
          error = 0;
        }),
      )
  insert_fsm copy count sink ready = (
    record { fsm = if sink.valid && sink.beat.last && ready then idle else copy; count = count },
    wires ready sink.valid sink.beat,
  )

  abbrev pub insert_step : Step Inserter Beat Beat
  insert_step s sink ready = insert_fsm s.fsm s.count sink ready

pub data CheckerState : Type 0 where
  hunt copying : CheckerState

-- The checker is for `dw == 8`, and its FSM's state is its only register (`hunt` is PREAMBLE and
-- `copying` COPY).
unfoldable pub check_step : Step CheckerState Beat Beat
check_step hunt sink ready = (
  if sink.valid && not sink.beat.last && sink.beat.data_word == eth_preamble / 2 ^ 56
      then copying
      else hunt,
  wires true false (record sink.beat { last = false; error = 0 }),
)
check_step copying sink ready = (
  if sink.valid && sink.beat.last && ready then hunt else copying,
  wires ready sink.valid sink.beat,
)

-- The checker's `error` output.
unfoldable pub check_error : CheckerState → Drive Beat → Bool
check_error hunt sink = sink.valid && sink.beat.last
check_error copying sink = false
