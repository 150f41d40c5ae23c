-- ===== src/Mac/Crc/Inserter.antt =====
-- `LiteEthMACCRCInserter` of liteeth/mac/crc.py, with the CRC-32 register.
pub mod Stream
pub mod Packets
use liteeth.Prelude.{ℕ, Bool, true, false, not, ◌+◌, ◌-◌, ◌/◌, ◌%◌, ◌^◌, ◌&&◌, ◌==◌, ltb, List}
use liteeth.Prelude.{if◌then◌else◌}
use liteeth.Stream.{Drive, Wires, wires, Beat, Step}
use liteeth.Mac.Crc.Crc32.{width, clock, value, value_word, of_bits}

pub data State : Type 0 where
  idle copy crc : State

pub record CrcInserter : Type 0 where
  pub fsm : State
  pub reg : List Bool
  pub cnt : ℕ

module _ (dw : ℕ) where
  abbrev pub ratio : ℕ
  ratio = width / dw

  -- The word of the CRC that the source shows in state CRC, and its `last`. There is a counter
  -- only where the CRC has more than one word. `chooser` counts from the number of values of the
  -- counter, which is the ratio at 8, 16 and 32 bits.
  abbrev pub crc_beat : List Bool → ℕ → Beat
  crc_beat reg cnt =
      if ltb 1 ratio
      then record {
        last = cnt == 0;
        data_word = value_word dw reg (ratio - 1 - cnt);
        last_be = 0;
        error = 0;
      }
      else record { last = true; data_word = of_bits (value reg) % 2 ^ dw; last_be = 0; error = 0 }

  unfoldable pub insert_fsm : State → List Bool → ℕ → Drive Beat → Bool → CrcInserter × Wires Beat
  insert_fsm idle reg cnt sink ready = (
    record {
      fsm = if sink.valid then copy else idle;
      reg = clock dw true false reg sink.beat.data_word;
      cnt = ratio - 1;
    },
    wires (not sink.valid) false (record sink.beat { last = false }),
  )
  insert_fsm copy reg cnt sink ready = (
    record {
      fsm = if sink.valid && sink.beat.last && ready then crc else copy;
      reg = clock dw false (sink.valid && ready) reg sink.beat.data_word;
      cnt = cnt;
    },
    wires ready sink.valid (record sink.beat { last = false }),
  )
  insert_fsm crc reg cnt sink ready = (
    record {
      fsm = if (crc_beat reg cnt).last && ready then idle else crc;
      reg = clock dw false false reg sink.beat.data_word;
      cnt = if ready && not (cnt == 0) then cnt - 1 else cnt;
    },
    wires false true (crc_beat reg cnt),
  )

  abbrev pub insert_step : Step CrcInserter Beat Beat
  insert_step s sink ready = insert_fsm s.fsm s.reg s.cnt sink ready
