-- ===== src/Mac/Crc/Engine/Onto.antt =====
-- What the shift register of Serial.antt can hold.
use liteeth.Prelude.{ℕ, zero, suc, Bool, true, false, ◌+◌, ◌<◌, ◌≡◌, refl, ap, ap₂, ◌∙◌, arith}
use liteeth.Prelude.{List, [], ◌∷◌, ◌++◌, if◌then◌else◌, xor, length, length-append, ◌==◌}
use liteeth.Mac.Crc.Engine.{in_taps, pop}
use liteeth.Mac.Crc.Engine.Serial.{feed, shift, serial}
use liteeth.Mac.Crc.Engine.Optimize.{false-xor, xor_assoc, xor_self, xor-false}

pop-snoc {ℓ} : {A : Type ℓ} (x : A) (xs : List A) (a : A) → pop x (xs ++ (a ∷ [])) ≡ (x ∷ xs, a)
unfolding pop
pop-snoc x [] a = refl
pop-snoc x (y ∷ ys) a = rw (pop-snoc y ys a)

module _ (width polynom : ℕ) where
  pub shift-snoc :
      (xs : List Bool) (a d : Bool)
      → shift width polynom (xs ++ (a ∷ [])) d ≡ xor a d ∷ feed width polynom 0 (xor a d) xs
  unfolding shift pop
  shift-snoc [] a d = refl
  shift-snoc (x ∷ xs) a d = rw (pop-snoc x xs a)

  pub length-feed :
      (j : ℕ) (fb : Bool) (bs : List Bool) → length (feed width polynom j fb bs) ≡ length bs
  unfolding feed
  length-feed j fb [] = refl
  length-feed j fb (b ∷ bs) = ap suc (length-feed (j + 1) fb bs)

  feed-feed :
      (j : ℕ) (fb : Bool) (bs : List Bool)
      → feed width polynom j fb (feed width polynom j fb bs) ≡ bs
  unfolding feed
  feed-feed j fb [] = refl
  feed-feed j fb (b ∷ bs) = ap₂ ◌∷◌ (head (in_taps width polynom (j + 1))) (feed-feed (j + 1) fb bs)
    where
      head :
          (t : Bool)
          → (if t then xor (if t then xor b fb else b) fb else (if t then xor b fb else b)) ≡ b
      head true = xor_assoc b fb fb ∙ ap (xor b) (xor_self fb) ∙ xor-false b
      head false = refl

  unshift : List Bool → List Bool
  unshift [] = []
  unshift (b ∷ bs) = feed width polynom 0 b bs ++ (false ∷ [])

  abbrev lowest : List Bool → Bool
  lowest [] = false
  lowest (b ∷ bs) = b

  shift-unshift : (t : List Bool) → 0 < length t → shift width polynom (unshift t) (lowest t) ≡ t
  unfolding unshift
  shift-unshift [] h = absurd (omega arith)
  shift-unshift (b ∷ bs) h = rw (shift-snoc, false-xor, feed-feed)

  length-unshift : (t : List Bool) → length (unshift t) ≡ length t
  unfolding unshift
  length-unshift [] = refl
  length-unshift (b ∷ bs) =
      omega (arith, length-append (feed width polynom 0 b bs) (false ∷ []), length-feed 0 b bs)

  serial_agree :
      (s : List Bool) (n : ℕ) (f g : ℕ → Bool)
      → ((m : ℕ) → m < n → f m ≡ g m)
      → serial width polynom s f n ≡ serial width polynom s g n
  unfolding serial
  serial_agree s zero f g h = refl
  serial_agree s (suc n) f g h =
      ap₂ (shift width polynom) (serial_agree s n f g (λ m p. h m (omega arith)))
        (h n (omega arith))

  abbrev put : (ℕ → Bool) → ℕ → Bool → ℕ → Bool
  put f n b m = if m == n then b else f m

  pub serial_onto :
      (n : ℕ) (t : List Bool)
      → 0 < length t
      → (s : List Bool) × (word : ℕ → Bool) × (serial width polynom s word n ≡ t)
        × (length s ≡ length t)
  unfolding serial
  serial_onto zero t h = (t, λ m. false, refl, refl)
  serial_onto (suc n) t h =
      let earlier = serial_onto n (unshift t) (omega (arith, length-unshift t)) in
      let word = put earlier.1 n (lowest t) in
      let same : serial width polynom earlier.0 word n ≡ unshift t =
        serial_agree earlier.0 n word earlier.1 (λ m p. ground arith) ∙ earlier.2 in
      let at_n : word n ≡ lowest t = ground arith in
      (
        earlier.0,
        word,
        ap₂ (shift width polynom) same at_n ∙ shift-unshift t h,
        earlier.3 ∙ length-unshift t,
      )
