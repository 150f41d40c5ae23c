-- ===== src/Mac/Padding.antt =====
-- liteeth/mac/padding.py: the inserter that fills short packets up, and the checker that checks
-- nothing.
pub mod Stream
pub mod Packets
use liteeth.Prelude.{
  ℕ, Bool, true, false, not, ◌+◌, ◌-◌, ◌*◌, ◌/◌, ◌%◌, ◌^◌, ◌&&◌, leb, if◌then◌else◌,
}
use liteeth.Stream.{Drive, Wires, wires, Beat, Step}

pub data State : Type 0 where
  idle padding : State

pub record PaddingInserter : Type 0 where
  pub fsm : State
  pub counter : ℕ

-- `math.ceil(padding/(dw/8))-1`
abbrev pub padding_limit : ℕ → ℕ → ℕ
padding_limit dw length = (8 * length + dw - 1) / dw - 1

abbrev pub zero_beat : Bool → Beat
zero_beat last = record { last = last; data_word = 0; last_be = 0; error = 0 }

-- `limit` is `padding_limit`.
module _ (limit : ℕ) where
  unfoldable pub pad_fsm : State → ℕ → Drive Beat → Bool → PaddingInserter × Wires Beat
  pad_fsm idle counter sink ready =
      let counter_done = leb limit counter in
      let passes = sink.valid && ready in
      (
        record {
          fsm = if passes && sink.beat.last && not counter_done then padding else idle;
          counter =
              if passes
              then (if sink.beat.last && counter_done then 0 else (counter + 1) % 2 ^ 16)
              else counter;
        },
        wires ready sink.valid (record sink.beat {
          last = if passes && sink.beat.last && not counter_done then false else sink.beat.last;
        }),
      )
  pad_fsm padding counter sink ready =
      let counter_done = leb limit counter in
      (
        record {
          fsm = if ready && counter_done then idle else padding;
          counter = if ready then (if counter_done then 0 else (counter + 1) % 2 ^ 16) else counter;
        },
        wires false true (zero_beat counter_done),
      )

  abbrev pub pad_step : Step PaddingInserter Beat Beat
  pad_step s sink ready = pad_fsm s.fsm s.counter sink ready

-- `LiteEthMACPaddingChecker` connects its sink to its source.
unfoldable pub check_step : Step (Unit {0}) Beat Beat
check_step s sink ready = (tt, wires ready sink.valid sink.beat)
