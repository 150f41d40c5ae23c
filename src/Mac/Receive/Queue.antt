-- ===== src/Mac/Receive/Queue.antt =====
-- What comes out of the checker's queue, and when.
use liteeth.Prelude.{
  ℕ, zero, suc, Bool-cases, inl, inr, true, false, ◌+◌, ◌≤◌, ◌≡◌, ◌==◌, refl, ap, ◌∙◌, sym, arith,
}
use liteeth.Prelude.{List, [], ◌∷◌, ◌++◌, map, take, drop, length, length-append, if◌then◌else◌}
use mathlib.Core.List.{append_assoc, append-nil}
use liteeth.Stream.{Beat}
use liteeth.Stream.Fifo.{first}
use liteeth.Mac.Receive.Stream.{pushed}

abbrev pub clean : Beat → Beat
clean x = record x { last = false; error = 0 }

module _ (junk : Beat) where
  -- The queue after beats, and the beats that they push out, cleaned.
  abbrev pub pushed_all : List Beat → List Beat → List Beat
  pushed_all q [] = q
  pushed_all q (u ∷ us) = pushed_all (pushed junk q u) us

  abbrev pub front : List Beat → List Beat → List Beat
  front q [] = []
  front q (u ∷ us) =
      (if length q == 4 then clean (first junk q) ∷ [] else []) ++ front (pushed junk q u) us

  abbrev Queued : ℕ → List Beat → List Beat → Type 0
  Queued k q us = (front q us ≡ map clean (take k (q ++ us))) × (pushed_all q us ≡ drop k (q ++ us))

  grows :
      (k : ℕ) (q : List Beat) (u : Beat) (us : List Beat)
      → (length q == 4) ≡ false
      → Queued k (q ++ (u ∷ [])) us
      → Queued k q (u ∷ us)
  grows k q u us e h =
      let same : (q ++ (u ∷ [])) ++ us ≡ q ++ (u ∷ us) = append_assoc q (u ∷ []) us in
      rw e (h.0 ∙ ap (λ t. map clean (take k t)) same, h.1 ∙ ap (drop k) same)

  moves :
      (k : ℕ) (y : Beat) (q : List Beat) (u : Beat) (us : List Beat)
      → (length (y ∷ q) == 4) ≡ true
      → Queued k (q ++ (u ∷ [])) us
      → Queued (suc k) (y ∷ q) (u ∷ us)
  moves k y q u us e h =
      let same : (q ++ (u ∷ [])) ++ us ≡ q ++ (u ∷ us) = append_assoc q (u ∷ []) us in
      rw e
        (ap (λ t. clean y ∷ t) (h.0 ∙ ap (λ t. map clean (take k t)) same), h.1 ∙ ap (drop k) same)

  -- All but the last four beats are out, and these are in the queue.
  pub front-Queued :
      (k : ℕ) (q us : List Beat) → length q ≤ 4 → k + 4 ≡ length q + length us → Queued k q us
  front-Queued zero q [] h e = (refl, sym (append-nil q))
  front-Queued (suc k) q [] h e = absurd (omega arith)
  front-Queued k [] (u ∷ us) h e = front-Queued k (u ∷ []) us (omega arith) (omega arith)
  front-Queued zero (y ∷ q) (u ∷ us) h e = grows zero (y ∷ q) u us (ground arith) (
      front-Queued zero (y ∷ q ++ (u ∷ [])) us (omega (arith, length-append q (u ∷ [])))
        (omega (arith, length-append q (u ∷ []))))
  front-Queued (suc k) (y ∷ q) (u ∷ us) h e = elim (Bool-cases (length (y ∷ q) == 4)) [
    | inl full ↦ moves k y q u us full (
        front-Queued k (q ++ (u ∷ [])) us (ground (arith, length-append q (u ∷ [])))
          (ground (arith, length-append q (u ∷ []))))
    | inr room ↦ grows (suc k) (y ∷ q) u us room (
        front-Queued (suc k) (y ∷ q ++ (u ∷ [])) us (ground (arith, length-append q (u ∷ [])))
          (omega (arith, length-append q (u ∷ []))))
  ]
