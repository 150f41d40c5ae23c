-- ===== src/Mac/Crc/Crc32/Words.antt =====
-- Words as lists of bits, and back.
use liteeth.Prelude.{
  ℕ, zero, suc, Bool, true, false, ◌+◌, ◌/◌, ◌%◌, ◌^◌, ◌<◌, ◌≡◌, refl, ap, ap₂, ◌∙◌, arith,
}
use liteeth.Prelude.{List, [], ◌∷◌, length, ◌==◌}
use liteeth.Mac.Crc.Engine.Serial.{bits}
use liteeth.Mac.Crc.Crc32.{nth_bit, of_bits}

-- The bits of a word, by halving.
abbrev pub to_bits : ℕ → ℕ → List Bool
to_bits zero d = []
to_bits (suc n) d = (d % 2 == 1) ∷ to_bits n (d / 2)

bits-shift :
    (f g : ℕ → Bool) (i j n : ℕ) → ((k : ℕ) → f (i + k) ≡ g (j + k)) → bits f i n ≡ bits g j n
unfolding bits
bits-shift f g i j zero h = refl
bits-shift f g i j (suc n) h =
    ap₂ ◌∷◌ (ap f (omega arith) ∙ h 0 ∙ ap g (omega arith))
      (bits-shift f g (i + 1) (j + 1) n (λ k. ap f (omega arith) ∙ h (suc k) ∙ ap g (omega arith)))

pub bits-nth_bit : (d n : ℕ) → bits (nth_bit d) 0 n ≡ to_bits n d
unfolding bits nth_bit
bits-nth_bit d zero = refl
bits-nth_bit d (suc n) =
    ap₂ ◌∷◌ refl (bits-shift (nth_bit d) (nth_bit (d / 2)) 1 0 n halved ∙ bits-nth_bit (d / 2) n)
  where
    halved : (k : ℕ) → nth_bit d (1 + k) ≡ nth_bit (d / 2) (0 + k)
    halved k =
        let up : 1 + k ≡ suc k = omega arith in
        let same : k ≡ 0 + k = omega arith in ap (nth_bit d) up ∙ ap (nth_bit (d / 2)) same

pub to_bits-of_bits : (l : List Bool) → to_bits (length l) (of_bits l) ≡ l
unfolding of_bits
to_bits-of_bits [] = refl
to_bits-of_bits (true ∷ l) =
    ap₂ ◌∷◌ (ground arith) (ap (to_bits (length l)) (omega arith) ∙ to_bits-of_bits l)
to_bits-of_bits (false ∷ l) =
    ap₂ ◌∷◌ (ground arith) (ap (to_bits (length l)) (omega arith) ∙ to_bits-of_bits l)

pub of_bits-to_bits : (n d : ℕ) → d < 2 ^ n → of_bits (to_bits n d) ≡ d
unfolding of_bits
of_bits-to_bits zero d h = omega arith
of_bits-to_bits (suc n) d h = ground (arith, of_bits-to_bits n (d / 2))

pub length-to_bits : (n d : ℕ) → length (to_bits n d) ≡ n
length-to_bits zero d = refl
length-to_bits (suc n) d = ap suc (length-to_bits n (d / 2))
