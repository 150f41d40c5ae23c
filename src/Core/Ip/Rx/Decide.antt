-- ===== src/Core/Ip/Rx/Decide.antt =====
-- `LiteEthIPRX` of liteeth/core/ip.py while a packet's first beat stands at its sink.
use mathlib.Core.Path.{subst}
use liteeth.Prelude.{ℕ, suc, true, false, ◌+◌, ◌&&◌, ◌==◌, ◌≡◌, arith, refl, ap, sym, ◌∙◌}
use liteeth.Prelude.{List, [], ◌∷◌, length, if◌then◌else◌}
use liteeth.Stream.{Beat, Cycle, Line, after, out, run, run_end}
use liteeth.Core.Gate.{idle, receive, drop, gate_step}
use liteeth.Core.Ip.Checksum.{pipe, summed_words, Checksum, value, done, tick, ticks}
use liteeth.Core.Ip.Checksum.Accept.{rx_checksum}
use liteeth.Core.Ip.Checksum.Settle.{start, words, tick_works, length-pipe}
use liteeth.Core.Ip.Rx.{Header, IpRx, accepts, rx_step}

length-summed_words : (i : ℕ) (ws : List ℕ) → length (summed_words false i ws) ≡ length ws
unfolding summed_words
length-summed_words i [] = refl
length-summed_words i (w ∷ ws) = ap suc (length-summed_words (i + 1) ws)

module _ (ip_address : ℕ) (h : Header) (x : Beat) (xs : List Beat) where
  -- The first beat stands at the sink.
  abbrev pub at : Checksum → Line IpRx Beat
  at k = record { regs = record { fsm = idle; checksum = k }; held = true; left = x ∷ xs }

  abbrev stay : Checksum → Checksum
  stay k = tick false true false h.words k

  computes :
      (k : Checksum) (c : Cycle Beat)
      → done false k ≡ false
      → after (rx_step ip_address h) (at k) c ≡ at (stay k)
  unfolding rx_step gate_step
  computes k c e = rw e refl

  decides :
      (k : Checksum) (c : Cycle Beat)
      → done false k ≡ true
      → let l = after (rx_step ip_address h) (at k) c in
        (l.regs.fsm ≡ (if accepts ip_address h k then receive else drop)) × (l.left ≡ x ∷ xs)
  unfolding rx_step gate_step
  decides k c e = rw e (refl, refl)

  silent : (k : Checksum) (c : Cycle Beat) → out (rx_step ip_address h) (at k) c ≡ []
  unfolding rx_step gate_step
  silent k c = refl

  abbrev Decided : Checksum → Line IpRx Beat → List (Cycle Beat) → Type 0
  Decided k l cs =
      (run (rx_step ip_address h) l cs ≡ [])
      × ((run_end (rx_step ip_address h) l cs).regs.fsm
          ≡ (if accepts ip_address h k then receive else drop))
      × ((run_end (rx_step ip_address h) l cs).left ≡ x ∷ xs)

  abbrev regs_at : ℕ → List ℕ → Checksum
  regs_at n ss = record { stages = ss; counter = n }

  is_done :
      (n : ℕ) (ss : List ℕ)
      → length ss ≡ length (words false h.words)
      → n + 0 ≡ length (words false h.words) + 1
      → done false (regs_at n ss) ≡ true
  unfolding done
  is_done n ss len e = ground arith

  is_busy :
      (n m : ℕ) (ss : List ℕ)
      → length ss ≡ length (words false h.words)
      → n + suc m ≡ length (words false h.words) + 1
      → done false (regs_at n ss) ≡ false
  unfolding done
  is_busy n m ss len e = ground arith

  waits :
      (n : ℕ) (ss : List ℕ) (c : Cycle Beat) (cs : List (Cycle Beat))
      → length ss ≡ length (words false h.words)
      → n + length cs ≡ length (words false h.words) + 1
      → let k = regs_at n ss in Decided (ticks false (length cs) h.words k) (at k) (c ∷ cs)
  unfolding run run_end ticks
  waits n ss c [] len e =
      let end = decides (regs_at n ss) c (is_done n ss len e) in
      (rw (silent (regs_at n ss) c) refl, end.0, end.1)
  waits n ss c (d ∷ cs) len e =
      let k = regs_at n ss in
      let l = after (rx_step ip_address h) (at k) c in
      let m = regs_at (n + 1) (pipe 0 ss (words false h.words)) in
      let ticked : stay k ≡ m = tick_works false h.words n ss len (omega arith) in
      let next : l ≡ at (stay k) = computes k c (is_busy n (length cs) ss len e) in
      let end : Decided (ticks false (length cs) h.words m) (at m) (d ∷ cs) =
        waits (n + 1) (pipe 0 ss (words false h.words)) d cs
          (length-pipe 0 ss (words false h.words) len ∙ len) (omega arith) in
      let back : Decided (ticks false (length cs) h.words (stay k)) (at (stay k)) (d ∷ cs) =
        subst (λ t. Decided (ticks false (length cs) h.words t) (at t) (d ∷ cs)) (sym ticked) end in
      let rest : Decided (ticks false (length cs) h.words (stay k)) l (d ∷ cs) =
        subst (λ t. Decided (ticks false (length cs) h.words (stay k)) t (d ∷ cs)) (sym next)
          back in
      (rw (silent k c) rest.0, rest.1, rest.2)

  -- While the first beat of a packet waits, with the checksum's counter cleared and its registers
  -- holding anything, the IP receiver passes nothing on and takes nothing for twelve cycles; after
  -- them it is in RECEIVE when the target address is its own, the version is 4, the header has five
  -- words and the value of the checksum unit is 0, and else in DROP.
  pub decides-rx_step :
      (ss : List ℕ) (cs : List (Cycle Beat))
      → length h.words ≡ 10
      → length ss ≡ 10
      → length cs ≡ 12
      → let step = rx_step ip_address h in
        (run step (at (start ss)) cs ≡ [])
        × ((run_end step (at (start ss)) cs).left ≡ x ∷ xs)
        × ((run_end step (at (start ss)) cs).regs.fsm ≡ (
            if h.target_ip == ip_address
              && h.version == 4
              && h.ihl == 5
              && value (rx_checksum ss h.words) == 0
            then receive
            else drop))
  decides-rx_step ss [] ten len twelve = absurd (omega arith)
  decides-rx_step ss (c ∷ cs) ten len twelve =
      let all : length (words false h.words) ≡ 10 = length-summed_words 0 h.words ∙ ten in
      let eleven : length cs ≡ 11 = omega arith in
      let end : Decided (ticks false (length cs) h.words (start ss)) (at (start ss)) (c ∷ cs) =
        waits 0 ss c cs (omega arith) (omega arith) in
      let end' : Decided (ticks false 11 h.words (start ss)) (at (start ss)) (c ∷ cs) =
        subst (λ m. Decided (ticks false m h.words (start ss)) (at (start ss)) (c ∷ cs)) eleven
          end in
      (end'.0, end'.2, end'.1)
