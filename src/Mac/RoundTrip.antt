-- ===== src/Mac/RoundTrip.antt =====
-- The transmitting side of liteeth/mac/core.py at 8 bits, stage after stage, and the receiving side
-- behind it. Each stage sends to the next under a schedule of its own, so that a buffer between two
-- makes no difference. Converters and clock domain crossings of the library are left out.
use liteeth.Prelude.{
  ℕ, zero, suc, true, false, ◌+◌, ◌-◌, ◌^◌, ◌≤◌, ◌<◌, ◌≡◌, refl, sym, ap, ◌∙◌, arith, leb,
}
use liteeth.Prelude.{List, [], ◌∷◌, ◌++◌, map, length, Bool-cases, inl, inr}
use liteeth.Stream.{Beat, Cycle, line, run, willing_count}
use liteeth.Stream.Fifo.{Fifo, FifoLaws}
use liteeth.Stream.Buffer.{Buffer, BufferLaws}
use liteeth.Stream.Packets.{IsPacket, ArePackets, concat}
use liteeth.Mac.Padding.{pad_step}
use liteeth.Mac.Padding as Padding
use liteeth.Mac.Padding.Stream.{filling}
use liteeth.Mac.Padding.Packets.{pad, AllAtMost, run-pad}
use liteeth.Mac.Padding.Packets as Pad
use liteeth.Mac.Crc.Inserter as Crc
use liteeth.Mac.Crc.Inserter.Stream.{open_beat}
use liteeth.Mac.Crc.Inserter.Packets.{with_crc, ending, word_of, started, run-with_crc}
use liteeth.Mac.Crc.Crc32.{init, crc_of}
use liteeth.Mac.Crc.Crc32.Trailer.{value_words}
use liteeth.Mac.Preamble.{hunt}
use liteeth.Mac.Preamble as Preamble
use liteeth.Mac.Preamble.Frames.{with_preamble, idle_inserter, run-with_preamble}
use liteeth.Mac.Gap.{gap_step}
use liteeth.Mac.Gap as Gap
use liteeth.Mac.Gap.Spacing.{cost, run-gap_step}
use liteeth.Mac.Gap.Spacing as Spacing
use liteeth.Mac.Crc.Checker.{reset, CrcChecker}
use liteeth.Mac.Receive.{receive_step}
use liteeth.Mac.Receive.Stream.{depth}
use liteeth.Mac.Receive.Body.{unflagged}
use liteeth.Mac.Receive.Buffered.{AllReady, empty, run-receive_step}
use liteeth.Mac.Receive.Good.{ok, frame_of, AreFrames-frame_of, wires-frame_of, judged_all-frame_of}

IsPacket-cons : (u : Beat) (p : List Beat) → u.last ≡ false → IsPacket p → IsPacket (u ∷ p)
IsPacket-cons u [] o h = absurd h
IsPacket-cons u (x ∷ p) o h = (o, h)

IsPacket-open : (p q : List Beat) → IsPacket q → IsPacket (map open_beat p ++ q)
IsPacket-open [] q h = h
IsPacket-open (x ∷ p) q h =
    IsPacket-cons (open_beat x) (map open_beat p ++ q) refl (IsPacket-open p q h)

IsPacket-filling : (n : ℕ) → IsPacket (filling (suc n))
IsPacket-filling zero = refl
IsPacket-filling (suc n) =
    IsPacket-cons (Padding.zero_beat false) (filling (suc n)) refl (IsPacket-filling n)

IsPacket-filled : (n : ℕ) (p : List Beat) → 0 < n → IsPacket (map open_beat p ++ filling n)
IsPacket-filled zero p h = absurd (omega arith)
IsPacket-filled (suc n) p h = IsPacket-open p (filling (suc n)) (IsPacket-filling n)

IsPacket-pad : (least : ℕ) (p : List Beat) → IsPacket p → IsPacket (pad least p)
IsPacket-pad least p h = elim (Bool-cases (leb least (length p))) [
  | inl e ↦ rw e h
  | inr e ↦ rw e (IsPacket-filled (least - length p) p (ground arith))
]

ArePackets-pad :
    (least : ℕ) (ps : List (List Beat)) → ArePackets ps → ArePackets (map (pad least) ps)
ArePackets-pad least [] h = tt
ArePackets-pad least (p ∷ ps) h = (IsPacket-pad least p h.0, ArePackets-pad least ps h.1)

abbrev ending_of : List Beat → List Beat
ending_of p = ending (value_words 8 (crc_of 8 init (map word_of p)) 0 4)

ArePackets-with_crc : (ps : List (List Beat)) → ArePackets (map (with_crc 8) ps)
ArePackets-with_crc [] = tt
ArePackets-with_crc (p ∷ ps) =
    (IsPacket-open p (ending_of p) (refl, (refl, (refl, refl))), ArePackets-with_crc ps)

-- The frames on the wire, and the four stages that make them.
abbrev pub frames : ℕ → List (List Beat) → List (List Beat)
frames limit ps = map (with_preamble 8) (map (with_crc 8) (map (pad (limit + 1)) ps))

abbrev pub transmitted : ℕ → List (List Beat) → (s1 s2 s3 s4 : List (Cycle Beat)) → List Beat
transmitted limit ps s1 s2 s3 s4 =
    let padded = run (pad_step limit) (line Pad.started (concat ps)) s1 in
    let sealed = run (Crc.insert_step 8) (line (started [] 0) padded) s2 in
    let framed = run (Preamble.insert_step 8 3) (line idle_inserter sealed) s3 in
    run (gap_step 12 4) (Spacing.at Gap.copy 0 false framed) s4

module _ (limit : ℕ) (small : limit < 2 ^ 16) (ps : List (List Beat)) (are : ArePackets ps)
    (sizes : AllAtMost (2 ^ 16) ps) (s1 s2 s3 s4 : List (Cycle Beat)) where
  transmitted-frames :
      length (concat (map (pad (limit + 1)) ps)) ≤ willing_count s1
      → length (concat (map (with_crc 8) (map (pad (limit + 1)) ps)))
          + length (map (pad (limit + 1)) ps)
        ≤ willing_count s2
      → length (concat (frames limit ps)) + length (map (with_crc 8) (map (pad (limit + 1)) ps))
        ≤ willing_count s3
      → cost 12 (concat (frames limit ps)) ≤ willing_count s4
      → transmitted limit ps s1 s2 s3 s4 ≡ concat (frames limit ps)
  transmitted-frames a b c d =
      let qs = map (pad (limit + 1)) ps in
      let good : ArePackets qs = ArePackets-pad (limit + 1) ps are in
      rw
        (
          run-pad limit small ps are sizes s1 a,
          run-with_crc 8 [] 0 (omega arith) qs good s2 b,
          run-with_preamble 8 3 (omega arith) (omega arith) (map (with_crc 8) qs)
              (ArePackets-with_crc qs) s3 c,
        )
        (run-gap_step 12 4 (omega arith) (omega arith) 0 (concat (frames limit ps)) s4 d)

  -- At 8 bits, the packets that go through the padding, the CRC inserter, the preamble inserter and
  -- the gap, one after the other, come out of the preamble checker with the buffer and the CRC
  -- checker behind it as they were, but padded and with no error on a last beat (the error of other
  -- beats is not looked at). This holds for packets of at most 65536 beats, on any FIFO and any
  -- buffer that obey their laws, from a CRC checker in RESET whose queue holds at most four beats
  -- and an empty buffer before it, whatever the stalls on the way out and of the wire, when every
  -- stage has enough willing cycles, and the downstream of the receiver is ready on all of them and
  -- on one more.
  pub receive-transmitted :
      (b : Buffer Beat) (bl : BufferLaws b) (k : Fifo Beat) (laws : FifoLaws depth k)
      (c0 : b.Carrier) (r : CrcChecker k.Carrier) (s5 : List (Cycle Beat)) (end : Cycle Beat)
      → bl.held c0 ≡ empty
      → AllReady s5
      → end.ready ≡ true
      → length (laws.contents r.fifo) ≤ 4
      → length (concat (map (pad (limit + 1)) ps)) ≤ willing_count s1
      → length (concat (map (with_crc 8) (map (pad (limit + 1)) ps)))
          + length (map (pad (limit + 1)) ps)
        ≤ willing_count s2
      → length (concat (frames limit ps)) + length (map (with_crc 8) (map (pad (limit + 1)) ps))
        ≤ willing_count s3
      → cost 12 (concat (frames limit ps)) ≤ willing_count s4
      → length (concat (frames limit ps)) ≤ willing_count s5
      → map unflagged (
          run
            (receive_step b k)
            (line (hunt, (c0, record r { fsm = reset })) (transmitted limit ps s1 s2 s3 s4))
            (s5 ++ (end ∷ [])))
        ≡ concat (map (map ok) (map (pad (limit + 1)) ps))
  receive-transmitted b bl k laws c0 r s5 end none all ready room e1 e2 e3 e4 e5 =
      let qs = map (pad (limit + 1)) ps in
      let wires = wires-frame_of qs in
      let sent = transmitted-frames e1 e2 e3 e4 ∙ ap concat wires in
      let enough = ap (λ ws. length (concat ws)) (sym wires) in
      ap
        (λ xs. map unflagged (
          run (receive_step b k) (line (hunt, (c0, record r { fsm = reset })) xs)
            (s5 ++ (end ∷ []))))
        sent
      ∙ run-receive_step b bl k laws c0 r (map frame_of qs) s5 end none room
          (AreFrames-frame_of qs (ArePackets-pad (limit + 1) ps are)) all ready
          (omega (arith, enough, e5))
      ∙ judged_all-frame_of qs
