-- ===== src/Mac/Preamble/Frames.antt =====
-- What the preamble inserter makes of a sequence of packets.
use mathlib.Core.List.{append_assoc}
use liteeth.Prelude.{ℕ, zero, suc, true, false, ◌+◌, ◌/◌, ◌^◌, ◌≤◌, ◌<◌, ◌≡◌, refl, ap, ◌∙◌}
use liteeth.Prelude.{List, [], ◌∷◌, ◌++◌, map, arith, length, length-append}
use liteeth.Stream.{Beat, Cycle, line, willing_count, run}
use liteeth.Stream.Packets.{IsPacket, ArePackets, concat}
use liteeth.Mac.Preamble.{idle, Inserter, insert_step}
use liteeth.Mac.Preamble.Insert.{preamble_from, framed, cost, insert_safe, insert_complete}

abbrev pub idle_inserter : Inserter
idle_inserter = record { fsm = idle; count = 0 }

module _ (dw : ℕ) where
  abbrev pub with_preamble : List Beat → List Beat
  with_preamble [] = []
  with_preamble (x ∷ p) = preamble_from dw 0 (64 / dw) x ++ (x ∷ p)

  framed_packet :
      (p ys : List Beat) → IsPacket p → framed dw true (p ++ ys) ≡ p ++ framed dw false ys
  framed_packet [] ys h = absurd h
  framed_packet (x ∷ []) ys h = rw h
  framed_packet (x ∷ y ∷ p) ys h = rw (h.0, framed_packet (y ∷ p) ys h.1)

  framed_packets :
      (ps : List (List Beat))
      → ArePackets ps
      → framed dw false (concat ps) ≡ concat (map with_preamble ps)
  framed_packets [] h = refl
  framed_packets ([] ∷ ps) h = absurd h.0
  framed_packets ((x ∷ p) ∷ ps) h =
      rw (append_assoc, framed_packet (x ∷ p) (concat ps) h.0, framed_packets ps h.1)

  length-preamble_from : (k n : ℕ) (x : Beat) → length (preamble_from dw k n x) ≡ n
  length-preamble_from k zero x = refl
  length-preamble_from k (suc n) x = ap suc (length-preamble_from (k + 1) n x)

  cost_packet :
      (p ys : List Beat) → IsPacket p → cost dw true (p ++ ys) ≡ length p + cost dw false ys
  cost_packet [] ys h = absurd h
  cost_packet (x ∷ []) ys h = rw h (omega arith)
  cost_packet (x ∷ y ∷ p) ys h = rw h.0 (omega (arith, cost_packet (y ∷ p) ys h.1))

  -- Every beat takes a cycle, and every packet one more, in IDLE.
  cost_packets :
      (ps : List (List Beat))
      → ArePackets ps
      → cost dw false (concat ps) ≡ length (concat (map with_preamble ps)) + length ps
  cost_packets [] h = refl
  cost_packets ([] ∷ ps) h = absurd h.0
  cost_packets ((x ∷ p) ∷ ps) h = omega (
    arith,
    cost_packet (x ∷ p) (concat ps) h.0,
    cost_packets ps h.1,
    length-preamble_from 0 (64 / dw) x,
    length-append (preamble_from dw 0 (64 / dw) x ++ (x ∷ p)) (concat (map with_preamble ps)),
    length-append (preamble_from dw 0 (64 / dw) x) (x ∷ p),
  )

module _ (dw bits : ℕ) (some_words : 0 < 64 / dw) (fits : 64 / dw ≤ 2 ^ bits)
    (ps : List (List Beat)) (are : ArePackets ps) (cs : List (Cycle Beat)) where
  -- At every moment and under every stall, what the preamble inserter has sent of a sequence of
  -- packets is a prefix of the packets, each with the words of the preamble before it.
  pub run_prefix-with_preamble :
      (more : List Beat) × (run (insert_step dw bits) (line idle_inserter (concat ps)) cs ++ more
        ≡ concat (map (with_preamble dw) ps))
  run_prefix-with_preamble =
      let safe = insert_safe dw bits some_words fits (concat ps) cs in
      (safe.0, safe.1 ∙ framed_packets dw ps are)

  -- The preamble inserter sends the packets of a sequence, each with the words of the preamble
  -- before it, whatever the stalls, when the willing cycles are as many as the beats to send and
  -- the packets, and the counter can count the words.
  pub run-with_preamble :
      length (concat (map (with_preamble dw) ps)) + length ps ≤ willing_count cs
      → run (insert_step dw bits) (line idle_inserter (concat ps)) cs
        ≡ concat (map (with_preamble dw) ps)
  run-with_preamble enough =
      insert_complete dw bits some_words fits (concat ps) cs (omega (arith, cost_packets dw ps are))
      ∙ framed_packets dw ps are
