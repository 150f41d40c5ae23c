-- ===== src/Mac/LastBe/Cut.antt =====
-- Packets at `LiteEthMACTXLastBE` of liteeth/mac/last_be.py.
use mathlib.Core.List.{append_assoc}
use liteeth.Prelude.{Bool, true, false, not, ◌&&◌, ◌-◌, ◌≤◌, ◌≡◌, refl, sym, ap, ◌∙◌, arith}
use liteeth.Prelude.{List, [], ◌∷◌, ◌++◌, map, length, if◌then◌else◌}
use liteeth.Stream.{Beat, Cycle, Line, line, after, out, willing, willing_count, run}
use liteeth.Stream.Contract.{Contract, run_complete}
use liteeth.Stream.Packets.{IsPacket, concat}
use liteeth.Mac.LastBe.{State, copy, wait_last, is_last_byte, source_beat, tx_step}

abbrev at : State → Bool → List Beat → Line State Beat
at s h xs = record { regs = s; held = h; left = xs }

abbrev cut : State → List Beat → List Beat
cut s [] = []
cut copy (x ∷ xs) =
    source_beat x ∷ cut (if is_last_byte x && not x.last then wait_last else copy) xs
cut wait_last (x ∷ xs) = cut (if x.last then copy else wait_last) xs

emits_at :
    (s : State) (h : Bool) (xs : List Beat) (c : Cycle Beat)
    → out tx_step (at s h xs) c
        ++ cut (after tx_step (at s h xs) c).regs (after tx_step (at s h xs) c).left
      ≡ cut s xs
unfolding tx_step
emits_at copy h [] c = refl
emits_at copy h (x ∷ xs) c = ground arith
emits_at wait_last h [] c = refl
emits_at wait_last h (x ∷ xs) c = ground arith

works_at :
    (s : State) (h : Bool) (xs : List Beat) (c : Cycle Beat)
    → length (after tx_step (at s h xs) c).left ≤ length xs - willing c
unfolding tx_step
works_at copy h [] c = ground arith
works_at copy h (x ∷ xs) c = ground arith
works_at wait_last h [] c = ground arith
works_at wait_last h (x ∷ xs) c = ground arith

done_at : (s : State) (xs : List Beat) → length xs ≡ 0 → cut s xs ≡ []
done_at s [] e = refl
done_at s (x ∷ xs) e = absurd (omega arith)

cut_contract : Contract tx_step
cut_contract = record {
  Inv = λ l. Unit {0};
  spec = λ l. cut l.regs l.left;
  work = λ l. length l.left;
  keeps = λ l c h. tt;
  emits = λ l c h. emits_at l.regs l.held l.left c;
  works = λ l c h. works_at l.regs l.held l.left c;
  done = λ l h e. done_at l.regs l.left e;
}

-- A packet: the beats before the last byte, the last byte, and what follows up to `last`.
pub record Sized : Type 0 where
  pub before : List Beat
  pub byte : Beat
  pub behind : List Beat

abbrev pub beats : Sized → List Beat
beats p = p.before ++ (p.byte ∷ p.behind)

abbrev pub AllInner : List Beat → Type 0
AllInner [] = Unit
AllInner (x ∷ xs) = (is_last_byte x ≡ false) × AllInner xs

-- `last` is at the byte or behind it.
abbrev pub Ends : Beat → List Beat → Type 0
Ends x [] = x.last ≡ true
Ends x (y ∷ ys) = (x.last ≡ false) × IsPacket (y ∷ ys)

abbrev pub AreSized : List Sized → Type 0
AreSized [] = Unit
AreSized (p ∷ ps) =
    (AllInner p.before × (is_last_byte p.byte ≡ true) × Ends p.byte p.behind) × AreSized ps

abbrev pub marked : Bool → Beat → Beat
marked last x = record x { last = last; last_be = 0 }

-- The packet up to its last byte.
abbrev pub ended : Sized → List Beat
ended p = map (marked false) p.before ++ (marked true p.byte ∷ [])

cut-behind : (p ys : List Beat) → IsPacket p → cut wait_last (p ++ ys) ≡ cut copy ys
cut-behind [] ys h = absurd h
cut-behind (x ∷ []) ys h = rw h refl
cut-behind (x ∷ y ∷ p) ys h = rw h.0 (cut-behind (y ∷ p) ys h.1)

cut-byte :
    (x : Beat) (p ys : List Beat)
    → is_last_byte x ≡ true
    → Ends x p
    → cut copy (x ∷ p ++ ys) ≡ marked true x ∷ cut copy ys
cut-byte x [] ys b h = rw (b, h) refl
cut-byte x (y ∷ p) ys b h = rw (b, h.0) (ap (λ t. marked true x ∷ t) (cut-behind (y ∷ p) ys h.1))

cut-before :
    (us ys : List Beat) → AllInner us → cut copy (us ++ ys) ≡ map (marked false) us ++ cut copy ys
cut-before [] ys h = refl
cut-before (u ∷ us) ys h = rw h.0 (ap (λ t. marked false u ∷ t) (cut-before us ys h.1))

cut_all : (ps : List Sized) → AreSized ps → cut copy (concat (map beats ps)) ≡ concat (map ended ps)
cut_all [] h = refl
cut_all (p ∷ ps) h =
    let rest = concat (map beats ps) in
    let front = map (marked false) p.before in
    ap (cut copy) (append_assoc p.before (p.byte ∷ p.behind) rest)
    ∙ cut-before p.before (p.byte ∷ p.behind ++ rest) h.0.0
    ∙ ap (λ t. front ++ t)
        (cut-byte p.byte p.behind rest h.0.1 h.0.2
          ∙ ap (λ t. marked true p.byte ∷ t) (cut_all ps h.1))
    ∙ sym (append_assoc front (marked true p.byte ∷ []) (concat (map ended ps)))

-- At 8 bits, of packets with one beat whose `last_be` is set, at `last` or before it, the
-- transmitter's last_be module passes on the beats up to that one, which gets `last`, whatever the
-- stalls, when there are as many willing cycles as beats.
pub run-tx_step :
    (ps : List Sized) (cs : List (Cycle Beat))
    → AreSized ps
    → length (concat (map beats ps)) ≤ willing_count cs
    → run tx_step (line copy (concat (map beats ps))) cs ≡ concat (map ended ps)
unfolding cut_contract
run-tx_step ps cs are enough =
    run_complete cut_contract (line copy (concat (map beats ps))) cs tt enough ∙ cut_all ps are
