-- ===== src/Mac/Crc/Engine/Serial.antt =====
-- The reference: the shift register that takes one bit at a time.
use liteeth.Prelude.{ℕ, zero, suc, Bool, ◌+◌}
use liteeth.Prelude.{List, [], ◌∷◌, if◌then◌else◌, xor}
use liteeth.Mac.Crc.Engine.{in_taps, pop}

-- The `n` bits of a signal from bit `i` on, lowest first.
unfoldable pub bits : (ℕ → Bool) → ℕ → ℕ → List Bool
bits f i zero = []
bits f i (suc n) = f i ∷ bits f (i + 1) n

module _ (width polynom : ℕ) where
  -- The feedback goes into the bits that the polynomial taps.
  unfoldable pub feed : ℕ → Bool → List Bool → List Bool
  feed j feedback [] = []
  feed j feedback (b ∷ bs) =
      (if in_taps width polynom (j + 1) then xor b feedback else b) ∷ feed (j + 1) feedback bs

  -- The register shifts up by one; what falls out meets the data bit.
  unfoldable pub shift : List Bool → Bool → List Bool
  shift [] d = []
  shift (b ∷ bs) d =
      let (rest, top) = pop b bs in let feedback = xor top d in feedback ∷ feed 0 feedback rest

  -- `n` bits of data, bit 0 first.
  unfoldable pub serial : List Bool → (ℕ → Bool) → ℕ → List Bool
  serial s word zero = s
  serial s word (suc n) = shift (serial s word n) (word n)
