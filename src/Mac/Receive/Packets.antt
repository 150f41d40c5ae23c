-- ===== src/Mac/Receive/Packets.antt =====
-- Frames, good and bad, at the receiving side of liteeth/mac/core.py.
use mathlib.Core.List.{append_assoc}
use liteeth.Prelude.{
  ℕ, Bool, true, false, not, ◌+◌, ◌/◌, ◌≤◌, ◌≡◌, refl, ap, ap₂, ◌∙◌, sym, arith, if◌then◌else◌,
}
use liteeth.Prelude.{
  List, [], ◌∷◌, ◌++◌, map, take, drop, length, length-append, length-map, length-drop,
}
use liteeth.Stream.{Beat, Cycle, line, run, willing_count}
use liteeth.Stream.Fifo.{Fifo, FifoLaws, first}
use liteeth.Stream.Packets.{IsPacket, concat}
use liteeth.Mac.Preamble.{hunt, copying, preamble_word}
use liteeth.Mac.Preamble.Insert.{preamble_from}
use liteeth.Mac.Preamble.Frames.{with_preamble}
use liteeth.Mac.Crc.Crc32.{init, engine_next, error, crc_of}
use liteeth.Mac.Crc.Inserter.Stream.{open_beat}
use liteeth.Mac.Crc.Inserter.Packets.{word_of}
use liteeth.Mac.Crc.Checker.{reset, CrcChecker}
use liteeth.Mac.Receive.{chained_step}
use liteeth.Mac.Receive.Stream.{depth, received, passed, receive_complete}
use liteeth.Mac.Receive.Queue.{clean, front-Queued}
use liteeth.Mac.Receive.Body.{AllOpen, unflagged, received_fresh-sent}
use liteeth.Mac.Receive.Frame.{
  Frame, crc_beat, body, beats, IsFrame, register, flagged, is_good, marked, flagged-is_good,
}
use liteeth.Mac.Receive.AnyFifo.{receive-listed}

beats-append : (f : Frame) (ys : List Beat) → beats f ++ ys ≡ body f ++ (crc_beat true f.final ∷ ys)
beats-append f ys = append_assoc (body f) (crc_beat true f.final ∷ []) ys

AllOpen-crc : (ds : List ℕ) → AllOpen (map (crc_beat false) ds)
AllOpen-crc [] = tt
AllOpen-crc (d ∷ ds) = (refl, AllOpen-crc ds)

AllOpen-body : (p us : List Beat) → AllOpen us → AllOpen (map open_beat p ++ us)
AllOpen-body [] us h = h
AllOpen-body (x ∷ p) us h = (refl, AllOpen-body p us h)

words-crc : (ds : List ℕ) → map word_of (map (crc_beat false) ds) ≡ ds
words-crc [] = refl
words-crc (d ∷ ds) = ap (λ t. d ∷ t) (words-crc ds)

crc_of-body :
    (reg : List Bool) (p us : List Beat)
    → crc_of 8 reg (map word_of (map open_beat p ++ us))
      ≡ crc_of 8 (crc_of 8 reg (map word_of p)) (map word_of us)
unfolding crc_of
crc_of-body reg [] us = refl
crc_of-body reg (x ∷ p) us = crc_of-body (engine_next 8 reg x.data_word) p us

error-body : (f : Frame) → error 8 (crc_of 8 init (map word_of (body f))) f.final ≡ flagged f
error-body f =
    ap (λ r. error 8 r f.final)
      (crc_of-body init f.packet (map (crc_beat false) f.words)
        ∙ ap (crc_of 8 (register f)) (words-crc f.words))

length-body : (f : Frame) → IsFrame f → length (body f) ≡ length f.packet + 3
length-body f h = omega (
  arith,
  length-append (map open_beat f.packet) (map (crc_beat false) f.words),
  length-map f.packet open_beat,
  length-map f.words (crc_beat false),
  h.1,
)

module _ (junk : Beat) where
  ended : ℕ → Beat → Beat
  ended e x = record x { last = true; error = e }

  -- The packet comes out of the queue but for its last beat, which the last word pushes out.
  marked-body :
      (e : ℕ) (x : Beat) (p us : List Beat)
      → IsPacket (x ∷ p)
      → map clean (take (length p) (map open_beat (x ∷ p) ++ us))
          ++ (ended e (first junk (drop (length p) (map open_beat (x ∷ p) ++ us))) ∷ [])
        ≡ marked e (x ∷ p)
  unfolding ended
  marked-body e x [] us h = rw h refl
  marked-body e x (y ∷ p) us h = rw h.0 (ap (λ t. clean x ∷ t) (marked-body e y p us h.1))

  last_passed :
      (bad : Bool) (reg : List Bool) (q : List Beat) (d : ℕ)
      → length q ≡ 4
      → error 8 reg d ≡ bad
      → map unflagged (passed junk reg q (crc_beat true d))
        ≡ ended (if bad then 1 else 0) (first junk q) ∷ []
  unfolding ended
  last_passed true reg q d len e = rw (len, e) refl
  last_passed false reg q d len e = rw (len, e) refl

  received-frame :
      (f : Frame) (ys : List Beat)
      → IsFrame f
      → map unflagged (received junk copying true init [] (beats f ++ ys))
        ≡ marked (if not (is_good f) then 1 else 0) f.packet
          ++ map unflagged (received junk hunt true init [] ys)
  received-frame f ys h = from f.packet f.words f.final h
    where
      from :
          (p : List Beat) (ws : List ℕ) (d : ℕ)
          → let g : Frame = record { packet = p; words = ws; final = d } in
            IsFrame g
            → map unflagged (received junk copying true init [] (beats g ++ ys))
              ≡ marked (if not (is_good g) then 1 else 0) p
                ++ map unflagged (received junk hunt true init [] ys)
      from [] ws d h = absurd h.0
      from (x ∷ p) ws d h =
          let g : Frame = record { packet = x ∷ p; words = ws; final = d } in
          let bad = not (is_good g) in
          let e : ℕ = if bad then 1 else 0 in
          let rest = map unflagged (received junk hunt true init [] ys) in
          let moved =
            front-Queued junk (length p) [] (body g) (omega arith)
              (omega (arith, length-body g h)) in
          let held : length (drop (length p) (body g)) ≡ 4 =
            omega (arith, length-drop (length p) (body g), length-body g h) in
          let reg = crc_of 8 init (map word_of (body g)) in
          ap (λ t. map unflagged (received junk copying true init [] t)) (beats-append g ys)
          ∙ received_fresh-sent junk init [] (map open_beat p ++ map (crc_beat false) ws)
              (open_beat x) (crc_beat true d) ys
              (AllOpen-body (x ∷ p) (map (crc_beat false) ws) (AllOpen-crc ws)) refl
          ∙ ap₂ (λ (s t : List Beat). s ++ (t ++ rest)) moved.0
              (ap (λ q. map unflagged (passed junk reg q (crc_beat true d))) moved.1
                ∙ last_passed bad reg (drop (length p) (body g)) d held
                    (error-body g ∙ flagged-is_good g h))
          ∙ sym (append_assoc _ (ended e (first junk (drop (length p) (body g))) ∷ []) rest)
          ∙ ap (λ t. t ++ rest) (marked-body e x p (map (crc_beat false) ws) h.0)

  received-preamble :
      (fresh : Bool) (x : Beat) (ys : List Beat)
      → received junk hunt fresh init [] (preamble_from 8 0 (64 / 8) x ++ ys)
        ≡ received junk copying fresh init [] ys
  unfolding preamble_word
  received-preamble fresh x ys = refl

-- A frame on the wire, and what the receiving side makes of it.
abbrev pub wire : Frame → List Beat
wire f = with_preamble 8 (beats f)

abbrev pub judged : Frame → List Beat
judged f = marked (if not (is_good f) then 1 else 0) f.packet

abbrev pub AreFrames : List Frame → Type 0
AreFrames [] = Unit
AreFrames (f ∷ fs) = IsFrame f × AreFrames fs

module _ (junk : Beat) where
  received-wire :
      (f : Frame) (ys : List Beat)
      → IsFrame f
      → map unflagged (received junk hunt true init [] (wire f ++ ys))
        ≡ judged f ++ map unflagged (received junk hunt true init [] ys)
  received-wire f ys h = from f.packet f.words f.final h
    where
      from :
          (p : List Beat) (ws : List ℕ) (d : ℕ)
          → let g : Frame = record { packet = p; words = ws; final = d } in
            IsFrame g
            → map unflagged (received junk hunt true init [] (wire g ++ ys))
              ≡ judged g ++ map unflagged (received junk hunt true init [] ys)
      from [] ws d h = absurd h.0
      from (x ∷ p) ws d h =
          let g : Frame = record { packet = x ∷ p; words = ws; final = d } in
          ap (λ t. map unflagged (received junk hunt true init [] t))
            (append_assoc (preamble_from 8 0 (64 / 8) (open_beat x)) (beats g) ys)
          ∙ ap (map unflagged) (received-preamble junk true (open_beat x) (beats g ++ ys))
          ∙ received-frame junk g ys h

  received-wires :
      (fs : List Frame)
      → AreFrames fs
      → map unflagged (received junk hunt true init [] (concat (map wire fs)))
        ≡ concat (map judged fs)
  received-wires [] h = refl
  received-wires (f ∷ fs) h =
      received-wire f (concat (map wire fs)) h.0 ∙ ap (λ t. judged f ++ t) (received-wires fs h.1)

module _ (k : Fifo Beat) (laws : FifoLaws depth k) where
  -- With no buffer between the two, at 8 bits, of frames that have a packet and a trailer of four bytes behind their preamble, the
  -- preamble checker with the CRC checker behind it passes on the packets, whose last beat has the
  -- error 0 when the trailer is the packet's CRC and 1 when it is not (the error of other beats is
  -- not looked at). This holds on any FIFO that obeys the laws, from a CRC checker in RESET whose
  -- queue holds at most four beats, whatever the stalls, when there are as many willing cycles as
  -- beats.
  pub run-chained_step :
      (r : CrcChecker k.Carrier) (fs : List Frame) (cs : List (Cycle Beat))
      → length (laws.contents r.fifo) ≤ 4
      → AreFrames fs
      → length (concat (map wire fs)) ≤ willing_count cs
      → map unflagged
          (run (chained_step k) (line (hunt, record r { fsm = reset }) (concat (map wire fs))) cs)
        ≡ concat (map judged fs)
  run-chained_step r fs cs small are enough =
      let xs = concat (map wire fs) in
      let junk = crc_beat false 0 in
      ap (map unflagged) (
        receive-listed junk k laws (record r { fsm = reset }) xs cs
        ∙ receive_complete junk xs cs r.reg (laws.contents r.fifo) small enough)
      ∙ received-wires junk fs are
