-- ===== src/Mac/Padding/Packets.antt =====
-- What the padding inserter makes of a sequence of packets.
use Prim.Native.Nat.{max}
use native.Mathlib.Nat.{mod-eq_of_lt}
use liteeth.Prelude.{ℕ, zero, suc, false, ◌+◌, ◌-◌, ◌%◌, ◌^◌, ◌≤◌, ◌<◌, ◌≡◌, refl, ap, ap₂, ◌∙◌}
use liteeth.Prelude.{
  List, [], ◌∷◌, ◌++◌, map, arith, if◌then◌else◌, leb, Bool-cases, inl, inr, length, length-append,
  length-map,
}
use liteeth.Stream.{Beat, Cycle, line, willing_count, run}
use liteeth.Stream.Packets.{IsPacket, ArePackets, concat}
use liteeth.Mac.Padding.{idle, PaddingInserter, pad_step}
use liteeth.Mac.Padding.Stream.{filling, padded, cost, pad_safe, pad_complete}

abbrev open_beat : Beat → Beat
open_beat x = record x { last = false }

-- The packet as it is, if it has `least` beats; else its beats and as many of zero as it lacks.
abbrev pub pad : ℕ → List Beat → List Beat
pad least p = if leb least (length p) then p else map open_beat p ++ filling (least - length p)

abbrev pub AllAtMost : ℕ → List (List Beat) → Type 0
AllAtMost m [] = Unit
AllAtMost m (p ∷ ps) = (length p ≤ m) × AllAtMost m ps

abbrev pub started : PaddingInserter
started = record { fsm = idle; counter = 0 }

length-filling : (n : ℕ) → length (filling n) ≡ n
length-filling zero = refl
length-filling (suc zero) = refl
length-filling (suc (suc n)) = ap suc (length-filling (suc n))

module _ (limit : ℕ) where
  -- `p` is the rest of a packet of which `n` beats have passed.
  abbrev pad_rest : ℕ → List Beat → List Beat
  pad_rest n p =
      if leb (limit + 1) (n + length p)
      then p
      else map open_beat p ++ filling (limit + 1 - (n + length p))

  padded-inner :
      (n : ℕ) (x : Beat) (xs : List Beat)
      → x.last ≡ false
      → n + 1 < 2 ^ 16
      → padded limit n (x ∷ xs) ≡ x ∷ padded limit (n + 1) xs
  padded-inner n x xs h small =
      let next : (n + 1) % 2 ^ 16 ≡ n + 1 = mod-eq_of_lt small in rw (h, next)

  pad_rest-inner :
      (n : ℕ) (x : Beat) (q : List Beat)
      → x.last ≡ false
      → x ∷ pad_rest (n + 1) q ≡ pad_rest n (x ∷ q)
  pad_rest-inner n x q h = ground arith

  padded_packet :
      (n : ℕ) (p ys : List Beat)
      → IsPacket p
      → n + length p ≤ 2 ^ 16
      → padded limit n (p ++ ys) ≡ pad_rest n p ++ padded limit 0 ys
  padded_packet n [] ys h small = absurd h
  padded_packet n (x ∷ []) ys h small = ground arith
  padded_packet n (x ∷ y ∷ p) ys h small =
      padded-inner n x (y ∷ p ++ ys) h.0 (omega arith)
      ∙ ap (λ t. x ∷ t) (padded_packet (n + 1) (y ∷ p) ys h.1 (omega arith))
      ∙ ap (λ t. t ++ padded limit 0 ys) (pad_rest-inner n x (y ∷ p) h.0)

  padded_packets :
      (ps : List (List Beat))
      → ArePackets ps
      → AllAtMost (2 ^ 16) ps
      → padded limit 0 (concat ps) ≡ concat (map (pad (limit + 1)) ps)
  padded_packets [] h small = refl
  padded_packets (p ∷ ps) h small =
      let from_zero : 0 + length p ≡ length p = omega arith in
      padded_packet 0 p (concat ps) h.0 (omega (arith, small.0))
      ∙ ap₂ ◌++◌
          (ap (λ n. if leb (limit + 1) n then p else map open_beat p ++ filling (limit + 1 - n))
            from_zero)
          (padded_packets ps h.1 small.1)

  length-pad : (least : ℕ) (p : List Beat) → length (pad least p) ≡ max least (length p)
  length-pad least p = elim (Bool-cases (leb least (length p))) [
    | inl e ↦ rw e (ground arith)
    | inr e ↦ rw e (
        ground (
          arith,
          length-append (map open_beat p) (filling (least - length p)),
          length-map p open_beat,
          length-filling (least - length p),
        ))
  ]

  cost_packet :
      (n : ℕ) (p ys : List Beat)
      → IsPacket p
      → n + length p ≤ 2 ^ 16
      → cost limit n (p ++ ys) ≡ max (limit + 1 - n) (length p) + cost limit 0 ys
  cost_packet n [] ys h small = absurd h
  cost_packet n (x ∷ []) ys h small = rw h (omega arith)
  cost_packet n (x ∷ y ∷ p) ys h small =
      let next : (n + 1) % 2 ^ 16 ≡ n + 1 = mod-eq_of_lt (omega arith) in
      rw (h.0, next) (omega (arith, cost_packet (n + 1) (y ∷ p) ys h.1 (omega arith)))

  cost_packets :
      (ps : List (List Beat))
      → ArePackets ps
      → AllAtMost (2 ^ 16) ps
      → cost limit 0 (concat ps) ≡ length (concat (map (pad (limit + 1)) ps))
  cost_packets [] h small = refl
  cost_packets (p ∷ ps) h small = omega (
    arith,
    cost_packet 0 p (concat ps) h.0 (omega (arith, small.0)),
    cost_packets ps h.1 small.1,
    length-append (pad (limit + 1) p) (concat (map (pad (limit + 1)) ps)),
    length-pad (limit + 1) p,
  )

module _ (limit : ℕ) (small : limit < 2 ^ 16) (ps : List (List Beat)) (are : ArePackets ps)
    (sizes : AllAtMost (2 ^ 16) ps) (cs : List (Cycle Beat)) where
  -- At every moment and under every stall, what the padding inserter has sent of packets of at most
  -- 65536 beats is a prefix of the packets, those that are shorter than `limit + 1` beats filled up
  -- with zeros to that length.
  pub run_prefix-pad :
      (more : List Beat) × (run (pad_step limit) (line started (concat ps)) cs ++ more
        ≡ concat (map (pad (limit + 1)) ps))
  run_prefix-pad =
      let safe = pad_safe limit small (concat ps) cs in
      (safe.0, safe.1 ∙ padded_packets limit ps are sizes)

  -- The padding inserter sends packets of at most 65536 beats, those that are shorter than `limit +
  -- 1` beats filled up with zeros to that length, whatever the stalls, when there are as many
  -- willing cycles as beats to send.
  pub run-pad :
      length (concat (map (pad (limit + 1)) ps)) ≤ willing_count cs
      → (run (pad_step limit) (line started (concat ps)) cs ≡ concat (map (pad (limit + 1)) ps))
  run-pad enough =
      pad_complete limit small (concat ps) cs (omega (arith, cost_packets limit ps are sizes))
      ∙ padded_packets limit ps are sizes
