-- ===== src/Core/Ip/Checksum/Settle.antt =====
-- The pipeline of the checksum unit's registers, cycle after cycle.
use mathlib.Core.Path.{subst}
use liteeth.Prelude.{
  ℕ, zero, suc, Bool, true, false, ◌+◌, ◌≤◌, ◌<◌, ◌≡◌, ◌==◌, arith, refl, ap, ap₂, sym, ◌∙◌,
}
use liteeth.Prelude.{List, [], ◌∷◌, length, take}
use liteeth.Core.Ip.Checksum.{
  Checksum, stage, pipe, last_stage, summed_words, n_cycles, done, tick, ticks,
}
use liteeth.Core.Ip.Checksum.Sum.{ones_sum}

abbrev sums : ℕ → List ℕ → List ℕ
sums r [] = []
sums r (w ∷ ws) = stage r w ∷ sums (stage r w) ws

last_stage-sums : (r : ℕ) (ws : List ℕ) → last_stage r (sums r ws) ≡ ones_sum r ws
unfolding last_stage
last_stage-sums r [] = refl
last_stage-sums r (w ∷ ws) = last_stage-sums (stage r w) ws

length-sums : (r : ℕ) (ws : List ℕ) → length (sums r ws) ≡ length ws
length-sums r [] = refl
length-sums r (w ∷ ws) = ap suc (length-sums (stage r w) ws)

pub length-pipe :
    (r : ℕ) (ss ws : List ℕ) → length ss ≡ length ws → length (pipe r ss ws) ≡ length ss
unfolding pipe
length-pipe r [] ws e = refl
length-pipe r (s ∷ ss) [] e = absurd (omega arith)
length-pipe r (s ∷ ss) (w ∷ ws) e = ap suc (length-pipe s ss ws (omega arith))

cons_inj : {x y : ℕ} {xs ys : List ℕ} → x ∷ xs ≡ y ∷ ys → (x ≡ y) × (xs ≡ ys)
cons_inj e = (cc, cc)

-- A cycle makes one register more right.
pipe_settles :
    (k r : ℕ) (ss ws : List ℕ)
    → length ss ≡ length ws
    → take k ss ≡ take k (sums r ws)
    → take (suc k) (pipe r ss ws) ≡ take (suc k) (sums r ws)
unfolding pipe
pipe_settles k r [] [] len e = refl
pipe_settles k r [] (w ∷ ws) len e = absurd (omega arith)
pipe_settles k r (s ∷ ss) [] len e = absurd (omega arith)
pipe_settles zero r (s ∷ ss) (w ∷ ws) len e = refl
pipe_settles (suc k) r (s ∷ ss) (w ∷ ws) len e =
    let (head, rest) = cons_inj e in
    ap (λ t. stage r w ∷ t) (rw head (pipe_settles k (stage r w) ss ws (omega arith) rest))

take_all : (n : ℕ) (xs : List ℕ) → length xs ≤ n → take n xs ≡ xs
take_all zero [] h = refl
take_all zero (x ∷ xs) h = absurd (omega arith)
take_all (suc n) [] h = refl
take_all (suc n) (x ∷ xs) h = ap (λ t. x ∷ t) (take_all n xs (omega arith))

abbrev pub start : List ℕ → Checksum
start ss = record { stages = ss; counter = 0 }

module _ (ws : List ℕ) where
  abbrev iter : ℕ → List ℕ → List ℕ
  iter zero ss = ss
  iter (suc n) ss = iter n (pipe 0 ss ws)

  length-iter : (n : ℕ) (ss : List ℕ) → length ss ≡ length ws → length (iter n ss) ≡ length ws
  length-iter zero ss e = e
  length-iter (suc n) ss e = length-iter n (pipe 0 ss ws) (length-pipe 0 ss ws e ∙ e)

  iter_settles :
      (n k : ℕ) (ss : List ℕ)
      → length ss ≡ length ws
      → take k ss ≡ take k (sums 0 ws)
      → take (n + k) (iter n ss) ≡ take (n + k) (sums 0 ws)
  iter_settles zero k ss len e =
      let same : k ≡ 0 + k = omega arith in subst (λ m. take m ss ≡ take m (sums 0 ws)) same e
  iter_settles (suc n) k ss len e =
      let same : n + suc k ≡ suc n + k = omega arith in
      subst (λ m. take m (iter n (pipe 0 ss ws)) ≡ take m (sums 0 ws)) same
        (iter_settles n (suc k) (pipe 0 ss ws) (length-pipe 0 ss ws len ∙ len)
          (pipe_settles k 0 ss ws len e))

  iter_all : (n : ℕ) (ss : List ℕ) → length ss ≡ length ws → length ws ≤ n → iter n ss ≡ sums 0 ws
  iter_all n ss len enough =
      sym (take_all (n + 0) (iter n ss) (omega (arith, length-iter n ss len)))
      ∙ iter_settles n 0 ss len refl
      ∙ take_all (n + 0) (sums 0 ws) (omega (arith, length-sums 0 ws))

module _ (skip : Bool) (header : List ℕ) where
  abbrev pub words : List ℕ
  words = summed_words skip 0 header

  pub tick_works :
      (k : ℕ) (ss : List ℕ)
      → length ss ≡ length words
      → k < n_cycles skip (length words)
      → tick skip true false header (record { stages = ss; counter = k })
        ≡ record { stages = pipe 0 ss words; counter = k + 1 }
  unfolding tick done
  tick_works k ss len lt =
      let busy : (k == n_cycles skip (length ss)) ≡ false = rw len (ground arith) in rw busy

  ticks-iter :
      (n k : ℕ) (ss : List ℕ)
      → length ss ≡ length words
      → k + n ≤ n_cycles skip (length words)
      → ticks skip n header (record { stages = ss; counter = k })
        ≡ record { stages = iter words n ss; counter = k + n }
  unfolding ticks
  ticks-iter zero k ss len fits =
      let same : k ≡ k + 0 = omega arith in ap (λ m. record { stages = ss; counter = m }) same
  ticks-iter (suc n) k ss len fits =
      let same : k + 1 + n ≡ k + suc n = omega arith in
      ap (ticks skip n header) (tick_works k ss len (omega arith))
      ∙ ticks-iter n (k + 1) (pipe 0 ss words) (length-pipe 0 ss words len ∙ len) (omega arith)
      ∙ ap (λ m. record { stages = iter words n (pipe 0 ss words); counter = m }) same

  -- After `n_cycles` edges on a header that stays, from a cleared counter, the checksum unit is
  -- done and its last register is the one's complement sum of all words that have a stage, whatever
  -- the registers held before.
  pub settled :
      (n : ℕ) (ss : List ℕ)
      → length ss ≡ length words
      → n ≡ n_cycles skip (length words)
      → let c = ticks skip n header (start ss) in
        (done skip c ≡ true) × (last_stage 0 c.stages ≡ ones_sum 0 words)
  unfolding done
  settled n ss len e =
      let enough : length words ≤ n = ground arith in
      let end : ticks skip n header (start ss) ≡ record { stages = sums 0 words; counter = n } =
        ticks-iter n 0 ss len (omega arith)
        ∙ ap₂ (λ (t : List ℕ) (m : ℕ). record { stages = t; counter = m })
            (iter_all words n ss len enough) (omega arith) in
      rw end (rw (length-sums 0 words) (ground arith), last_stage-sums 0 words)
