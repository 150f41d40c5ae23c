-- ===== src/Tests/Mac.antt =====
-- The modules of liteeth/mac/ on concrete packets.
use liteeth.Prelude.{true, false, ◌≡◌, refl, arith, List, [], ◌∷◌, map}
use liteeth.Stream.{line, run, run_end, after, willing_count}
use liteeth.Stream.Packets.{concat}
use liteeth.Mac.Preamble.{insert_step, check_step, hunt}
use liteeth.Mac.Preamble.Frames.{idle_inserter}
use liteeth.Mac.Preamble.RoundTrip.{run-check-insert}
use liteeth.Mac.Padding.{pad_step}
use liteeth.Mac.Padding.Packets.{pad, started, run-pad}
use liteeth.Mac.Gap.{gap_step, copy, gap_fsm}
use liteeth.Mac.Gap.Spacing.{at, gap_after_last}
use liteeth.Mac.LastBe.{tx_step}
use liteeth.Mac.LastBe as LastBe
use liteeth.Mac.LastBe.Cut as Cut
use liteeth.Tests.Data.{beat, two_packets, cycle, schedule}

run-check-insert_example :
    run check_step
      (line hunt (run (insert_step 8 3) (line idle_inserter (concat two_packets)) (schedule 21)))
      (schedule 19)
    ≡ concat two_packets
unfolding willing_count
run-check-insert_example =
    run-check-insert 3 two_packets (schedule 21) (schedule 19) (omega arith)
      ((refl, refl), (refl, tt)) (omega arith) (omega arith)

run-pad_example :
    run (pad_step 3) (line started (concat two_packets)) (schedule 8)
    ≡ concat (map (pad 4) two_packets)
unfolding willing_count
run-pad_example =
    run-pad 3 (omega arith) two_packets ((refl, refl), (refl, tt)) (omega arith, (omega arith, tt))
      (schedule 8) (omega arith)

gap_after_last_example :
    let l =
      after (gap_step 12 4) (at copy 5 false (beat true 3 ∷ [])) (cycle (beat false 0) true true) in
    (run (gap_step 12 4) l (schedule 4) ≡ [])
    × ((run_end (gap_step 12 4) l (schedule 4)).regs.fsm ≡ copy)
    × ((run_end (gap_step 12 4) l (schedule 4)).left ≡ [])
unfolding gap_fsm
gap_after_last_example =
    gap_after_last 12 4 (omega arith) (omega arith) 5 false (beat true 3) []
      (cycle (beat false 0) true true) (schedule 4) refl refl refl

-- A packet of two bytes with one behind them, and a packet of one byte.
abbrev sized : List Cut.Sized
sized =
    record {
      before = beat false 1 ∷ [];
      byte = record (beat false 2) { last_be = 1 };
      behind = beat true 0 ∷ [];
    }
    ∷ record { before = []; byte = record (beat true 3) { last_be = 1 }; behind = [] }
    ∷ []

run-tx_step_example :
    run tx_step (line LastBe.copy (concat (map Cut.beats sized))) (schedule 4)
    ≡ concat (map Cut.ended sized)
unfolding willing_count
run-tx_step_example =
    Cut.run-tx_step sized (schedule 4) (((refl, tt), refl, (refl, refl)), (((tt, refl, refl)), tt))
      (omega arith)
