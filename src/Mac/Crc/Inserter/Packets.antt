-- ===== src/Mac/Crc/Inserter/Packets.antt =====
-- What the CRC inserter makes of a sequence of packets.
use liteeth.Prelude.{ℕ, zero, suc, Bool, true, false, ◌+◌, ◌-◌, ◌≤◌, ◌<◌, ◌≡◌, refl, ap, ap₂, ◌∙◌}
use liteeth.Prelude.{
  List, [], ◌∷◌, ◌++◌, map, arith, if◌then◌else◌, ltb, ◌==◌, length, length-append, length-map,
}
use liteeth.Stream.{Beat, Cycle, line, willing_count, run}
use liteeth.Stream.Packets.{IsPacket, ArePackets, concat}
use liteeth.Mac.Crc.Crc32.{crc_of, engine_next, init, value_word}
use liteeth.Mac.Crc.Crc32.Trailer.{value_words}
use liteeth.Mac.Crc.Inserter.{idle, CrcInserter, ratio, crc_beat, insert_step}
use liteeth.Mac.Crc.Inserter.Stream.{
  open_beat, crc_beats, sealed, cost, insert_safe, insert_complete,
}

abbrev pub word_of : Beat → ℕ
word_of x = x.data_word

-- Words as the end of a packet.
abbrev pub ending : List ℕ → List Beat
ending [] = []
ending (d ∷ []) = record { last = true; data_word = d; last_be = 0; error = 0 } ∷ []
ending (d ∷ e ∷ ds) =
    record { last = false; data_word = d; last_be = 0; error = 0 } ∷ ending (e ∷ ds)

-- In IDLE, with anything in the other registers.
abbrev pub started : List Bool → ℕ → CrcInserter
started reg cnt = record { fsm = idle; reg = reg; cnt = cnt }

module _ (dw : ℕ) where
  -- The packet, no longer ended, and the words of the CRC of its data.
  abbrev pub with_crc : List Beat → List Beat
  with_crc p =
      map open_beat p ++ ending (value_words dw (crc_of dw init (map word_of p)) 0 (ratio dw))

  crc_beat-word :
      (reg : List Bool) (n k : ℕ)
      → 1 < ratio dw
      → k + suc n ≡ ratio dw
      → crc_beat dw reg n
        ≡ record { last = n == 0; data_word = value_word dw reg k; last_be = 0; error = 0 }
  crc_beat-word reg n k words e =
      let several : ltb 1 (ratio dw) ≡ true = ground arith in
      let index : ratio dw - 1 - n ≡ k = omega arith in rw (several, index)

  crc_beats-ending :
      (reg : List Bool) (n k : ℕ)
      → 1 < ratio dw
      → k + suc n ≡ ratio dw
      → crc_beats dw reg n ≡ ending (value_words dw reg k (suc n))
  crc_beats-ending reg zero k words e = ap (λ t. t ∷ []) (crc_beat-word reg 0 k words e)
  crc_beats-ending reg (suc n) k words e =
      let inner : (suc n == 0) ≡ false = ground arith in
      ap₂ ◌∷◌ (crc_beat-word reg (suc n) k words e ∙ rw inner)
        (crc_beats-ending reg n (k + 1) words (omega arith))

  sealed_packet :
      (reg : List Bool) (p ys : List Beat)
      → IsPacket p
      → sealed dw reg (p ++ ys)
        ≡ (map open_beat p ++ crc_beats dw (crc_of dw reg (map word_of p)) (ratio dw - 1))
          ++ sealed dw init ys
  unfolding crc_of
  sealed_packet reg [] ys h = absurd h
  sealed_packet reg (x ∷ []) ys h = rw h
  sealed_packet reg (x ∷ y ∷ p) ys h =
      rw h.0
        (ap (λ t. open_beat x ∷ t) (sealed_packet (engine_next dw reg x.data_word) (y ∷ p) ys h.1))

  cost_packet :
      (started : Bool) (p ys : List Beat)
      → IsPacket p
      → cost dw started (p ++ ys)
        ≡ (if started then 0 else 1) + length p + ratio dw + cost dw false ys
  cost_packet started [] ys h = absurd h
  cost_packet true (x ∷ []) ys h = rw h (omega arith)
  cost_packet false (x ∷ []) ys h = rw h (omega arith)
  cost_packet true (x ∷ y ∷ p) ys h = rw h.0 (omega (arith, cost_packet true (y ∷ p) ys h.1))
  cost_packet false (x ∷ y ∷ p) ys h = rw h.0 (omega (arith, cost_packet true (y ∷ p) ys h.1))

  sealed_packets :
      (ps : List (List Beat))
      → 1 < ratio dw
      → ArePackets ps
      → sealed dw init (concat ps) ≡ concat (map with_crc ps)
  sealed_packets [] words h = refl
  sealed_packets (p ∷ ps) words h =
      let reg = crc_of dw init (map word_of p) in
      let all : suc (ratio dw - 1) ≡ ratio dw = omega arith in
      sealed_packet init p (concat ps) h.0
      ∙ ap₂ ◌++◌
          (ap (λ t. map open_beat p ++ t)
            (crc_beats-ending reg (ratio dw - 1) 0 words (omega arith)
              ∙ ap (λ n. ending (value_words dw reg 0 n)) all))
          (sealed_packets ps words h.1)

  length-ending : (ds : List ℕ) → length (ending ds) ≡ length ds
  length-ending [] = refl
  length-ending (d ∷ []) = refl
  length-ending (d ∷ e ∷ ds) = ap suc (length-ending (e ∷ ds))

  length-value_words : (reg : List Bool) (k n : ℕ) → length (value_words dw reg k n) ≡ n
  length-value_words reg k zero = refl
  length-value_words reg k (suc n) = ap suc (length-value_words reg (k + 1) n)

  length-with_crc : (p : List Beat) → length (with_crc p) ≡ length p + ratio dw
  length-with_crc p =
      let words = value_words dw (crc_of dw init (map word_of p)) 0 (ratio dw) in
      omega (
        arith,
        length-append (map open_beat p) (ending words),
        length-map p open_beat,
        length-ending words,
        length-value_words (crc_of dw init (map word_of p)) 0 (ratio dw),
      )

  cost_packets :
      (ps : List (List Beat))
      → ArePackets ps
      → cost dw false (concat ps) ≡ length (concat (map with_crc ps)) + length ps
  cost_packets [] h = refl
  cost_packets (p ∷ ps) h = omega (
    arith,
    cost_packet false p (concat ps) h.0,
    cost_packets ps h.1,
    length-append (with_crc p) (concat (map with_crc ps)),
    length-with_crc p,
  )

  module _ (regs : List Bool) (cnt : ℕ) (words : 1 < ratio dw) (ps : List (List Beat))
      (are : ArePackets ps) (cs : List (Cycle Beat)) where
    -- With more than one word in a CRC, at every moment and under every stall, what the CRC
    -- inserter has sent of a sequence of packets is a prefix of the packets, each followed by the
    -- words of the CRC of its own data.
    pub run_prefix-with_crc :
        (more : List Beat) × (run (insert_step dw) (line (started regs cnt) (concat ps)) cs ++ more
          ≡ concat (map with_crc ps))
    run_prefix-with_crc =
        let safe = insert_safe dw words regs cnt (concat ps) cs in
        (safe.0, safe.1 ∙ sealed_packets ps words are)

    -- With more than one word in a CRC, from IDLE with anything in the other registers, the CRC
    -- inserter sends the packets of a sequence, each followed by the words of the CRC of its own
    -- data, whatever the stalls, when the willing cycles are as many as the beats to send and the
    -- packets.
    pub run-with_crc :
        length (concat (map with_crc ps)) + length ps ≤ willing_count cs
        → run (insert_step dw) (line (started regs cnt) (concat ps)) cs ≡ concat (map with_crc ps)
    run-with_crc enough =
        insert_complete dw words regs cnt (concat ps) cs (omega (arith, cost_packets ps are))
        ∙ sealed_packets ps words are
