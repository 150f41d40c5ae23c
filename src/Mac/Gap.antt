-- ===== src/Mac/Gap.antt =====
-- liteeth/mac/gap.py: the gap between two packets on the wire.
pub mod Spacing
use liteeth.Prelude.{ℕ, Bool, true, false, ◌+◌, ◌-◌, ◌/◌, ◌%◌, ◌^◌, ◌&&◌, ◌==◌, if◌then◌else◌}
use liteeth.Stream.{Drive, Wires, wires, Beat, Step}

abbrev pub eth_interpacket_gap : ℕ
eth_interpacket_gap = 12

-- `math.ceil(eth_interpacket_gap/(dw//8))`
abbrev pub gap_of : ℕ → ℕ
gap_of dw = (eth_interpacket_gap + dw / 8 - 1) / (dw / 8)

pub data State : Type 0 where
  copy waiting : State

pub record Gap : Type 0 where
  pub fsm : State
  pub counter : ℕ

-- `gap` is `gap_of dw`, and `counter` has `bits` bits; `waiting` is the state GAP.
module _ (gap bits : ℕ) where
  unfoldable pub gap_fsm : State → ℕ → Drive Beat → Bool → Gap × Wires Beat
  gap_fsm copy counter sink ready = (
    record { fsm = if sink.valid && sink.beat.last && ready then waiting else copy; counter = 0 },
    wires ready sink.valid sink.beat,
  )
  gap_fsm waiting counter sink ready = (
    record {
      fsm = if counter == gap - 1 then copy else waiting;
      counter = (counter + 1) % 2 ^ bits;
    },
    wires false false (record { last = false; data_word = 0; last_be = 0; error = 0 }),
  )

  abbrev pub gap_step : Step Gap Beat Beat
  gap_step s sink ready = gap_fsm s.fsm s.counter sink ready
