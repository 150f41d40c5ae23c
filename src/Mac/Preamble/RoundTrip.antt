-- ===== src/Mac/Preamble/RoundTrip.antt =====
-- The two halves of liteeth/mac/preamble.py back to back, at the width that the checker asks for.
use liteeth.Prelude.{ℕ, ◌+◌, ◌^◌, ◌≤◌, ◌≡◌, ◌∙◌}
use liteeth.Prelude.{List, map, arith, length}
use liteeth.Stream.{Beat, Cycle, line, willing_count, run}
use liteeth.Stream.Packets.{ArePackets, concat}
use liteeth.Mac.Preamble.{hunt, check_step, insert_step}
use liteeth.Mac.Preamble.Frames.{with_preamble, idle_inserter, run-with_preamble}
use liteeth.Mac.Preamble.Check.{stripped_packets, check_complete}

-- At 8 bits, the preamble checker gives back exactly the packets that the inserter was given,
-- whatever the stalls on both sides, when both have enough willing cycles and the counter can count
-- to 8.
pub run-check-insert :
    (bits : ℕ) (ps : List (List Beat)) (cs ds : List (Cycle Beat))
    → 8 ≤ 2 ^ bits
    → ArePackets ps
    → length (concat (map (with_preamble 8) ps)) + length ps ≤ willing_count cs
    → length (concat (map (with_preamble 8) ps)) ≤ willing_count ds
    → run check_step (line hunt (run (insert_step 8 bits) (line idle_inserter (concat ps)) cs)) ds
      ≡ concat ps
run-check-insert bits ps cs ds fits are enough_tx enough_rx =
    let sent = run-with_preamble 8 bits (omega arith) fits ps are cs enough_tx in
    rw sent
      (check_complete (concat (map (with_preamble 8) ps)) ds enough_rx ∙ stripped_packets ps are)
