-- ===== src/Mac/Receive/Good.antt =====
-- The frames that the transmitting side of liteeth/mac/core.py makes.
use mathlib.Core.List.{append_assoc}
use native.Mathlib.Nat.{pow-le-pow_right}
use liteeth.Prelude.{
  ℕ, Bool, true, false, not, ◌*◌, ◌^◌, ◌≤◌, ◌<◌, ◌≡◌, refl, ap, ap₂, ◌∙◌, sym, arith,
}
use liteeth.Prelude.{List, [], ◌∷◌, ◌++◌, map, take, drop, length, length-take, if◌then◌else◌}
use liteeth.Stream.{Beat}
use liteeth.Stream.Packets.{IsPacket, ArePackets, concat}
use liteeth.Mac.Preamble.Frames.{with_preamble}
use liteeth.Mac.Crc.Crc32.{init, crc_of, value, value_word, of_bits}
use liteeth.Mac.Crc.Inserter.Stream.{open_beat}
use liteeth.Mac.Crc.Inserter.Packets.{word_of, with_crc}
use liteeth.Mac.Receive.Frame.{Frame, beats, IsFrame, is_good, marked, same_words_self}
use liteeth.Mac.Receive.Packets.{wire, judged, AreFrames}

abbrev pub ok : Beat → Beat
ok x = record x { error = 0 }

abbrev crc_word : List Beat → ℕ → ℕ
crc_word p k = value_word 8 (crc_of 8 init (map word_of p)) k

abbrev pub frame_of : List Beat → Frame
frame_of p = record {
  packet = p;
  words = crc_word p 0 ∷ crc_word p 1 ∷ crc_word p 2 ∷ [];
  final = crc_word p 3;
}

of_bits-lt : (l : List Bool) → of_bits l < 2 ^ length l
unfolding of_bits
of_bits-lt [] = omega arith
of_bits-lt (true ∷ l) = grind (arith, of_bits-lt l)
of_bits-lt (false ∷ l) = grind (arith, of_bits-lt l)

byte : (l : List Bool) → of_bits (take 8 l) < 2 ^ 8
byte l =
    let short : length (take 8 l) ≤ 8 = omega (arith, length-take 8 l) in
    let below : 2 ^ length (take 8 l) ≤ 2 ^ 8 = pow-le-pow_right (omega arith) short in
    omega (arith, of_bits-lt (take 8 l), below)

crc_word-lt : (p : List Beat) (k : ℕ) → crc_word p k < 2 ^ 8
unfolding value_word
crc_word-lt p k = byte (drop (8 * k) (value (crc_of 8 init (map word_of p))))

frame_of-IsFrame : (p : List Beat) → IsPacket p → IsFrame (frame_of p)
frame_of-IsFrame p h =
    (h, refl, (crc_word-lt p 0, (crc_word-lt p 1, (crc_word-lt p 2, tt))), crc_word-lt p 3)

is_good-frame_of : (p : List Beat) → is_good (frame_of p) ≡ true
is_good-frame_of p =
    same_words_self (crc_word p 0 ∷ crc_word p 1 ∷ crc_word p 2 ∷ crc_word p 3 ∷ [])

marked-ok : (p : List Beat) → marked 0 p ≡ map ok p
marked-ok [] = refl
marked-ok (x ∷ []) = refl
marked-ok (x ∷ y ∷ p) = ap (λ t. ok x ∷ t) (marked-ok (y ∷ p))

judged-frame_of : (p : List Beat) → judged (frame_of p) ≡ map ok p
judged-frame_of p = ap (λ b. marked (if not b then 1 else 0) p) (is_good-frame_of p) ∙ marked-ok p

with_crc-frame_of : (p : List Beat) → with_crc 8 p ≡ beats (frame_of p)
with_crc-frame_of p = sym (append_assoc (map open_beat p) _ _)

pub AreFrames-frame_of : (ps : List (List Beat)) → ArePackets ps → AreFrames (map frame_of ps)
AreFrames-frame_of [] h = tt
AreFrames-frame_of (p ∷ ps) h = (frame_of-IsFrame p h.0, AreFrames-frame_of ps h.1)

pub wires-frame_of :
    (ps : List (List Beat))
    → map (with_preamble 8) (map (with_crc 8) ps) ≡ map wire (map frame_of ps)
wires-frame_of [] = refl
wires-frame_of (p ∷ ps) = ap₂ ◌∷◌ (ap (with_preamble 8) (with_crc-frame_of p)) (wires-frame_of ps)

pub judged_all-frame_of :
    (ps : List (List Beat)) → concat (map judged (map frame_of ps)) ≡ concat (map (map ok) ps)
judged_all-frame_of [] = refl
judged_all-frame_of (p ∷ ps) = ap₂ ◌++◌ (judged-frame_of p) (judged_all-frame_of ps)
