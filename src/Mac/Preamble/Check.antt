-- ===== src/Mac/Preamble/Check.antt =====
-- The preamble checker of liteeth/mac/preamble.py, beat by beat.
use mathlib.Core.List.{append_assoc}
use liteeth.Prelude.{Bool, true, false, not, ◌-◌, ◌/◌, ◌≤◌, ◌≡◌, refl}
use liteeth.Prelude.{List, [], ◌∷◌, ◌++◌, map, arith, length, ◌&&◌, ◌==◌}
use liteeth.Stream.{Beat, Cycle, Line, line, after, out, willing, willing_count, run}
use liteeth.Stream.Contract.{Contract, run_prefix, run_complete}
use liteeth.Stream.Packets.{IsPacket, ArePackets, concat}
use liteeth.Mac.Preamble.{CheckerState, hunt, copying, check_step, preamble_word}
use liteeth.Mac.Preamble.Insert.{preamble_from}
use liteeth.Mac.Preamble.Frames.{with_preamble}

-- `stripped copying` passes beats on up to `last`; before, a beat that is the delimiter starts that.
abbrev pub is_delimiter : Beat → Bool
is_delimiter x = not x.last && x.data_word == 0xd5

abbrev pub stripped : Bool → List Beat → List Beat
stripped started [] = []
stripped false (x ∷ xs) = stripped (is_delimiter x) xs
stripped true (x ∷ xs) = x ∷ stripped (not x.last) xs

abbrev has_started : CheckerState → Bool
has_started hunt = false
has_started copying = true

abbrev at : CheckerState → Bool → List Beat → Line CheckerState Beat
at s h xs = record { regs = s; held = h; left = xs }

abbrev spec_of : Line CheckerState Beat → List Beat
spec_of l = stripped (has_started l.regs) l.left

emits_at :
    (s : CheckerState) (h : Bool) (xs : List Beat) (c : Cycle Beat)
    → out check_step (at s h xs) c ++ spec_of (after check_step (at s h xs) c) ≡ spec_of (at s h xs)
unfolding check_step
emits_at hunt h [] c = refl
emits_at hunt h (x ∷ xs) c = ground arith
emits_at copying h [] c = refl
emits_at copying h (x ∷ xs) c = ground arith

works_at :
    (s : CheckerState) (h : Bool) (xs : List Beat) (c : Cycle Beat)
    → length (after check_step (at s h xs) c).left ≤ length xs - willing c
unfolding check_step
works_at hunt h [] c = ground arith
works_at hunt h (x ∷ xs) c = ground arith
works_at copying h [] c = ground arith
works_at copying h (x ∷ xs) c = ground arith

done_at : (s : CheckerState) (xs : List Beat) → length xs ≡ 0 → stripped (has_started s) xs ≡ []
done_at s [] e = refl
done_at s (x ∷ xs) e = absurd (omega arith)

check_contract : Contract check_step
check_contract = record {
  Inv = λ l. Unit {0};
  spec = spec_of;
  work = λ l. length l.left;
  keeps = λ l c h. tt;
  emits = λ l c h. emits_at l.regs l.held l.left c;
  works = λ l c h. works_at l.regs l.held l.left c;
  done = λ l h e. done_at l.regs l.left e;
}

stripped-preamble :
    (x : Beat) (ys : List Beat)
    → stripped false (preamble_from 8 0 (64 / 8) x ++ ys) ≡ stripped true ys
unfolding preamble_word
stripped-preamble x ys = refl

stripped_packet : (p ys : List Beat) → IsPacket p → stripped true (p ++ ys) ≡ p ++ stripped false ys
stripped_packet [] ys h = absurd h
stripped_packet (x ∷ []) ys h = rw h
stripped_packet (x ∷ y ∷ p) ys h = rw (h.0, stripped_packet (y ∷ p) ys h.1)

pub stripped_packets :
    (ps : List (List Beat))
    → ArePackets ps
    → stripped false (concat (map (with_preamble 8) ps)) ≡ concat ps
stripped_packets [] h = refl
stripped_packets ([] ∷ ps) h = absurd h.0
stripped_packets ((x ∷ p) ∷ ps) h = rw (
  append_assoc,
  stripped-preamble x,
  stripped_packet (x ∷ p) (concat (map (with_preamble 8) ps)) h.0,
  stripped_packets ps h.1,
)

-- Whatever arrives, what the checker has passed on is a prefix of `stripped`, under every stall.
pub check_safe :
    (xs : List Beat) (cs : List (Cycle Beat))
    → (more : List Beat) × (run check_step (line hunt xs) cs ++ more ≡ stripped false xs)
unfolding check_contract
check_safe xs cs = run_prefix check_contract (line hunt xs) cs tt

pub check_complete :
    (xs : List Beat) (cs : List (Cycle Beat))
    → length xs ≤ willing_count cs
    → run check_step (line hunt xs) cs ≡ stripped false xs
unfolding check_contract
check_complete xs cs enough = run_complete check_contract (line hunt xs) cs tt enough
