-- ===== src/Mac/Crc/Engine/Correct.antt =====
-- The equations of Engine.antt beside the shift register of Serial.antt, and `reduce`.
use native.Mathlib.Nat.{add-zero}
use liteeth.Prelude.{ℕ, zero, suc, Bool, true, false, ◌+◌, ◌<◌, ◌≡◌, refl, ap, ap₂, sym, ◌∙◌, arith}
use liteeth.Prelude.{List, [], ◌∷◌, map, xor, length, some, ◌&&◌, replicate, get_or}
use liteeth.Prelude.{length-replicate}
use liteeth.Mac.Crc.Engine.{Term, curval, bit_of, reduce_xor, reduce_from, next}
use liteeth.Mac.Crc.Engine.Serial.{bits, serial}
use liteeth.Mac.Crc.Engine.Equal.{map-curval}
use liteeth.Mac.Crc.Engine.Onto.{serial_onto}
use liteeth.Mac.Crc.Engine.Optimize.{total, xor-false, xor_assoc}

abbrev all_true : List Bool → Bool
all_true [] = true
all_true (b ∷ bs) = b && all_true bs

all_true-replicate : (n : ℕ) → all_true (replicate n true) ≡ true
all_true-replicate zero = refl
all_true-replicate (suc n) = all_true-replicate n

module _ (last word : ℕ → Bool) where
  reduce_from-total :
      (b : Bool) (c : List Term)
      → reduce_from b (map (bit_of last word) c) ≡ xor b (total (bit_of last word) c)
  unfolding reduce_from
  reduce_from-total b [] = sym (xor-false b)
  reduce_from-total b (e ∷ c) = rw (reduce_from-total (xor b (bit_of last word e)) c, xor_assoc)

  -- An equation that is true for some input is not empty.
  reduce_xor-total :
      (f g : ℕ → Bool) (c : List Term)
      → total (bit_of f g) c ≡ true
      → reduce_xor (map (bit_of last word) c) ≡ some (total (bit_of last word) c)
  unfolding reduce_xor
  reduce_xor-total f g [] h = cc
  reduce_xor-total f g (e ∷ c) h = ap some (reduce_from-total (bit_of last word e) c)

  reduce_all :
      (f g : ℕ → Bool) (cs : List (List Term))
      → all_true (map (total (bit_of f g)) cs) ≡ true
      → map (λ c. reduce_xor (map (bit_of last word) c)) cs
        ≡ map some (map (total (bit_of last word)) cs)
  reduce_all f g [] h = refl
  reduce_all f g (c ∷ cs) h =
      ap₂ ◌∷◌ (reduce_xor-total f g c (ground arith)) (reduce_all f g cs (ground arith))

bits_of_list :
    (f : ℕ → Bool) (i : ℕ) (s : List Bool)
    → ((k : ℕ) → k < length s → f (i + k) ≡ get_or s k false)
    → bits f i (length s) ≡ s
unfolding bits
bits_of_list f i [] h = refl
bits_of_list f i (b ∷ s) h =
    ap₂ ◌∷◌ (ap f (sym (add-zero i)) ∙ h 0 (omega arith))
      (bits_of_list f (i + 1) s (λ k p. ap f (omega arith) ∙ h (suc k) (omega arith)))

pub bits-get_or : (s : List Bool) → bits (λ i. get_or s i false) 0 (length s) ≡ s
bits-get_or s =
    bits_of_list (λ i. get_or s i false) 0 s (λ k p. ap (λ m. get_or s m false) (omega arith))

module _ (data_width width polynom : ℕ) where
  none_empty :
      (s : List Bool) (f : ℕ → Bool)
      → length s ≡ width
      → serial width polynom s f data_width ≡ replicate width true
      → all_true (map (total (bit_of (λ i. get_or s i false) f)) (curval width polynom data_width))
        ≡ true
  none_empty s f len e =
      let register : bits (λ i. get_or s i false) 0 width ≡ s = rw (← len) (bits-get_or s) in
      rw (map-curval width polynom (λ i. get_or s i false) f data_width, register, e)
        (all_true-replicate width)

  -- For every data width, polynomial and positive CRC width, the equations that the engine derives
  -- compute what the serial shift register holds after the data's bits, bit 0 first, and `reduce`
  -- raises on none of them.
  pub next-serial :
      (last word : ℕ → Bool)
      → 0 < width
      → next data_width width polynom last word
        ≡ map some (serial width polynom (bits last 0 width) word data_width)
  unfolding next
  next-serial last word pos =
      let ones =
        serial_onto width polynom data_width (replicate width true)
          (omega (arith, length-replicate width true)) in
      reduce_all last word (λ i. get_or ones.0 i false) ones.1 (curval width polynom data_width)
        (none_empty ones.0 ones.1 (ones.3 ∙ length-replicate width true) ones.2)
      ∙ ap (map some) (map-curval width polynom last word data_width)
