-- ===== src/Mac/Crc/Engine/Equal.antt =====
-- The values of the equations of Engine.antt, round by round.
use liteeth.Prelude.{ℕ, zero, suc, Bool, true, false, ◌+◌, ◌≡◌, refl, ap, ap₂, ◌∙◌}
use liteeth.Prelude.{List, [], ◌∷◌, ◌++◌, map, if◌then◌else◌, xor}
use liteeth.Mac.Crc.Engine.{Term, in_taps, pop, mix, round, states, curval, bit_of}
use liteeth.Mac.Crc.Engine.{optimize_eq}
use liteeth.Mac.Crc.Engine.Serial.{bits, feed, shift, serial}
use liteeth.Mac.Crc.Engine.Optimize.{total, total-optimize_eq, total-append, xor-false}

map-pop {ℓ κ} :
    {A : Type ℓ} {B : Type κ} (f : A → B) (x : A) (xs : List A)
    → pop (f x) (map f xs) ≡ (map f (pop x xs).0, f (pop x xs).1)
unfolding pop
map-pop f x [] = refl
map-pop f x (y ∷ ys) = rw (map-pop f y ys)

module _ (width polynom : ℕ) (last word : ℕ → Bool) where
  abbrev pub value : List Term → Bool
  value = total (bit_of last word)

  map-mix :
      (j : ℕ) (fb : List Term) (cs : List (List Term))
      → map value (mix width polynom j fb cs) ≡ feed width polynom j (value fb) (map value cs)
  unfolding mix feed
  map-mix j fb [] = refl
  map-mix j fb (c ∷ cs) = ap₂ ◌∷◌ (head (in_taps width polynom (j + 1))) (map-mix (j + 1) fb cs)
    where
      head :
          (b : Bool)
          → value (optimize_eq (if b then c ++ fb else c))
            ≡ (if b then xor (value c) (value fb) else value c)
      head true = total-optimize_eq _ (c ++ fb) ∙ total-append _ c fb
      head false = total-optimize_eq _ c

  map-round :
      (i : ℕ) (cs : List (List Term))
      → map value (round width polynom i cs) ≡ shift width polynom (map value cs) (word i)
  unfolding round shift
  map-round i [] = refl
  map-round i (c ∷ cs) = rw (map-pop value c cs, map-mix, total-append, xor-false)

  map-states : (i n : ℕ) → map value (states width polynom i n) ≡ bits last i n
  unfolding states bits
  map-states i zero = refl
  map-states i (suc n) = ap₂ ◌∷◌ (xor-false _) (map-states (i + 1) n)

  pub map-curval :
      (n : ℕ) → map value (curval width polynom n) ≡ serial width polynom (bits last 0 width) word n
  unfolding curval serial
  map-curval zero = map-states 0 width
  map-curval (suc n) =
      map-round n (curval width polynom n) ∙ ap (λ s. shift width polynom s (word n)) (map-curval n)
