-- ===== src/Tests/Data.antt =====
-- Beats, packets and schedules.
use liteeth.Prelude.{ℕ, zero, suc, Bool, true, false, List, [], ◌∷◌}
use liteeth.Stream.{Beat, Cycle}

abbrev pub beat : Bool → ℕ → Beat
beat last word = record { last = last; data_word = word; last_be = 0; error = 0 }

abbrev pub two_packets : List (List Beat)
two_packets = (beat false 1 ∷ beat true 2 ∷ []) ∷ (beat true 3 ∷ []) ∷ []

module _ {A : Type 0} (x : A) where
  abbrev pub cycle : Bool → Bool → Cycle A
  cycle offer ready = record { offer = offer; ready = ready; rest = x }

  -- `n` times: the source stalls, the sink stalls, both are willing.
  abbrev pub stalling : ℕ → List (Cycle A)
  stalling zero = []
  stalling (suc n) = cycle false true ∷ cycle true false ∷ cycle true true ∷ stalling n

abbrev pub schedule : ℕ → List (Cycle Beat)
schedule = stalling (beat false 0)
