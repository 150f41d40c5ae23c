-- ===== src/Mac/Crc/Residue.antt =====
-- The shift register of a CRC on its own complement, which the checker of liteeth/mac/crc.py is for.
use mathlib.Core.List.{append-nil, append_assoc, reverse, reverse-cons, reverse-reverse}
use liteeth.Prelude.{ℕ, zero, suc, Bool, true, false, not, ◌+◌, ◌≡◌, refl, ap, ap₂, sym, ◌∙◌, arith}
use liteeth.Prelude.{
  List, [], ◌∷◌, ◌++◌, map, xor, length, length-map, length-reverse, length-replicate, replicate,
  if◌then◌else◌,
}
use liteeth.Mac.Crc.Engine.{in_taps, pop}
use liteeth.Mac.Crc.Engine.Serial.{feed, shift}
use liteeth.Mac.Crc.Engine.Onto.{shift-snoc, length-feed}
use liteeth.Mac.Crc.Engine.Optimize.{xor_medial, xor_self, false-xor, xor-false}

abbrev pub zeros : ℕ → List Bool
zeros n = replicate n false

-- Bitwise `^` of two signals of one width.
abbrev pub xors : List Bool → List Bool → List Bool
xors [] ys = []
xors (x ∷ xs) [] = []
xors (x ∷ xs) (y ∷ ys) = xor x y ∷ xors xs ys

snoc_cases : (x : Bool) (xs : List Bool) → (u : List Bool) × (b : Bool) × (x ∷ xs ≡ u ++ (b ∷ []))
snoc_cases x [] = ([], x, refl)
snoc_cases x (y ∷ ys) = let rest = snoc_cases y ys in (x ∷ rest.0, rest.1, ap (λ t. x ∷ t) rest.2)

-- `~s[::-1]`
unfoldable pub complement : List Bool → List Bool
complement s = map not (reverse s)

pub length-complement : (s : List Bool) → length (complement s) ≡ length s
unfolding complement
length-complement s = length-map (reverse s) not ∙ length-reverse s

zeros-snoc : (n : ℕ) → zeros n ++ (false ∷ []) ≡ zeros (suc n)
zeros-snoc zero = refl
zeros-snoc (suc n) = ap (λ t. false ∷ t) (zeros-snoc n)

length-xors : (xs ys : List Bool) → length xs ≡ length ys → length (xors xs ys) ≡ length xs
length-xors [] ys e = refl
length-xors (x ∷ xs) [] e = absurd (omega arith)
length-xors (x ∷ xs) (y ∷ ys) e = ap suc (length-xors xs ys (omega arith))

cons_inj : {x y : Bool} {xs ys : List Bool} → x ∷ xs ≡ y ∷ ys → (x ≡ y) × (xs ≡ ys)
cons_inj e = (cc, cc)

xor-eq-false : (a b : Bool) → xor a b ≡ false → a ≡ b
unfolding xor
xor-eq-false a b h = ground arith

module _ (width polynom : ℕ) where
  abbrev pub serial_list : List Bool → List Bool → List Bool
  serial_list s [] = s
  serial_list s (d ∷ ds) = serial_list (shift width polynom s d) ds

  feed-false : (j : ℕ) (bs : List Bool) → feed width polynom j false bs ≡ bs
  unfolding feed
  feed-false j [] = refl
  feed-false j (b ∷ bs) = ap₂ ◌∷◌ (head (in_taps width polynom (j + 1))) (feed-false (j + 1) bs)
    where
      head : (t : Bool) → (if t then xor b false else b) ≡ b
      head true = xor-false b
      head false = refl

  -- A register that is fed its own bits, top first, empties.
  serial_list_self :
      (k : ℕ) (ds : List Bool) → serial_list (zeros k ++ reverse ds) ds ≡ zeros (k + length ds)
  serial_list_self k [] = rw append-nil (ap zeros (omega arith))
  serial_list_self k (d ∷ ds) =
      rw
        (
          reverse-cons,
          ← append_assoc,
          shift-snoc width polynom (zeros k ++ reverse ds) d d,
          xor_self,
          feed-false,
        )
        (serial_list_self (suc k) ds ∙ ap zeros (omega arith))

  length-pop : (x : Bool) (xs : List Bool) → length (pop x xs).0 ≡ length xs
  unfolding pop
  length-pop x [] = refl
  length-pop x (y ∷ ys) = ap suc (length-pop y ys)

  pub length-shift : (s : List Bool) (d : Bool) → length (shift width polynom s d) ≡ length s
  unfolding shift
  length-shift [] d = refl
  length-shift (b ∷ bs) d =
      ap suc (length-feed width polynom 0 (xor (pop b bs).1 d) (pop b bs).0 ∙ length-pop b bs)

  pub length-serial_list : (s ds : List Bool) → length (serial_list s ds) ≡ length s
  length-serial_list s [] = refl
  length-serial_list s (d ∷ ds) = length-serial_list (shift width polynom s d) ds ∙ length-shift s d

  pop-xors :
      (x y : Bool) (xs ys : List Bool)
      → length xs ≡ length ys
      → pop (xor x y) (xors xs ys) ≡ (xors (pop x xs).0 (pop y ys).0, xor (pop x xs).1 (pop y ys).1)
  unfolding pop
  pop-xors x y [] [] e = refl
  pop-xors x y [] (b ∷ ys) e = absurd (omega arith)
  pop-xors x y (a ∷ xs) [] e = absurd (omega arith)
  pop-xors x y (a ∷ xs) (b ∷ ys) e = rw (pop-xors a b xs ys (omega arith))

  feed-xors :
      (j : ℕ) (f g : Bool) (bs cs : List Bool)
      → length bs ≡ length cs
      → feed width polynom j (xor f g) (xors bs cs)
        ≡ xors (feed width polynom j f bs) (feed width polynom j g cs)
  unfolding feed
  feed-xors j f g [] [] e = refl
  feed-xors j f g [] (c ∷ cs) e = absurd (omega arith)
  feed-xors j f g (b ∷ bs) [] e = absurd (omega arith)
  feed-xors j f g (b ∷ bs) (c ∷ cs) e =
      ap₂ ◌∷◌ (head (in_taps width polynom (j + 1))) (feed-xors (j + 1) f g bs cs (omega arith))
    where
      head :
          (t : Bool)
          → (if t then xor (xor b c) (xor f g) else xor b c)
            ≡ xor (if t then xor b f else b) (if t then xor c g else c)
      head true = xor_medial b c f g
      head false = refl

  shift-xors :
      (s t : List Bool) (d e : Bool)
      → length s ≡ length t
      → shift width polynom (xors s t) (xor d e)
        ≡ xors (shift width polynom s d) (shift width polynom t e)
  unfolding shift
  shift-xors [] [] d e len = refl
  shift-xors [] (y ∷ ys) d e len = absurd (omega arith)
  shift-xors (x ∷ xs) [] d e len = absurd (omega arith)
  shift-xors (x ∷ xs) (y ∷ ys) d e len = rw (
    pop-xors x y xs ys (omega arith),
    xor_medial (pop x xs).1 (pop y ys).1 d e,
    feed-xors 0 (xor (pop x xs).1 d) (xor (pop y ys).1 e) (pop x xs).0 (pop y ys).0
        (omega (arith, length-pop x xs, length-pop y ys)),
  )

  -- The register is linear in its content and its data.
  pub serial_list-xors :
      (s t ds es : List Bool)
      → length s ≡ length t
      → length ds ≡ length es
      → serial_list (xors s t) (xors ds es) ≡ xors (serial_list s ds) (serial_list t es)
  serial_list-xors s t [] [] p q = refl
  serial_list-xors s t [] (e ∷ es) p q = absurd (omega arith)
  serial_list-xors s t (d ∷ ds) [] p q = absurd (omega arith)
  serial_list-xors s t (d ∷ ds) (e ∷ es) p q =
      ap (λ r. serial_list r (xors ds es)) (shift-xors s t d e p)
      ∙ serial_list-xors (shift width polynom s d) (shift width polynom t e) ds es
          (length-shift s d ∙ p ∙ sym (length-shift t e)) (omega arith)

  -- Only its own bits, top first, empty a register.
  emptied :
      (ds s : List Bool) (k : ℕ)
      → length s ≡ k + length ds
      → serial_list s ds ≡ zeros (k + length ds)
      → s ≡ zeros k ++ reverse ds
  emptied [] s k len e = e ∙ rw append-nil (ap zeros (omega arith))
  emptied (d ∷ ds) [] k len e = absurd (omega arith)
  emptied (d ∷ ds) (x ∷ xs) k len e =
      let (u, b, split) = snoc_cases x xs in
      let before : shift width polynom (x ∷ xs) d ≡ zeros (suc k) ++ reverse ds =
        emptied ds (shift width polynom (x ∷ xs) d) (suc k) (omega (arith, length-shift (x ∷ xs) d))
          (e ∙ ap zeros (omega arith)) in
      let moved : xor b d ∷ feed width polynom 0 (xor b d) u ≡ false ∷ (zeros k ++ reverse ds) =
        sym (shift-snoc width polynom u b d)
        ∙ ap (λ t. shift width polynom t d) (sym split)
        ∙ before in
      let low : xor b d ≡ false = (cons_inj moved).0 in
      let high : u ≡ zeros k ++ reverse ds =
        sym (feed-false 0 u) ∙ ap (λ f. feed width polynom 0 f u) (sym low) ∙ (cons_inj moved).1 in
      split ∙ rw (high, xor-eq-false b d low, reverse-cons, append_assoc)

  xors-zeros : (s : List Bool) → xors s (zeros (length s)) ≡ s
  xors-zeros [] = refl
  xors-zeros (b ∷ s) = ap₂ ◌∷◌ (xor-false b) (xors-zeros s)

  zeros-xors : (s : List Bool) → xors (zeros (length s)) s ≡ s
  zeros-xors [] = refl
  zeros-xors (b ∷ s) = ap₂ ◌∷◌ (false-xor b) (zeros-xors s)

  xors_self : (s : List Bool) → xors s s ≡ zeros (length s)
  xors_self [] = refl
  xors_self (b ∷ s) = ap₂ ◌∷◌ (xor_self b) (xors_self s)

  xors-ones : (s : List Bool) → xors s (replicate (length s) true) ≡ map not s
  unfolding xor
  xors-ones [] = refl
  xors-ones (b ∷ s) = ap₂ ◌∷◌ (ground arith) (xors-ones s)

  -- Fed its own complement, top first, every register of a length ends up the same.
  pub residue :
      (s : List Bool)
      → serial_list s (complement s) ≡ serial_list (zeros (length s)) (replicate (length s) true)
  unfolding complement
  residue s =
      let n = length s in
      let ones = replicate n true in
      let fed : serial_list s (reverse s) ≡ zeros n =
        rw (reverse-reverse s) at (serial_list_self 0 (reverse s))
        ∙ ap zeros (omega (arith, length-reverse s)) in
      let reg : xors s (zeros n) ≡ s = xors-zeros s in
      let dat : xors (reverse s) ones ≡ map not (reverse s) =
        ap (λ m. xors (reverse s) (replicate m true)) (sym (length-reverse s))
        ∙ xors-ones (reverse s) in
      ap₂ serial_list (sym reg) (sym dat)
      ∙ serial_list-xors s (zeros n) (reverse s) ones (sym (length-replicate n false))
          (length-reverse s ∙ sym (length-replicate n true))
      ∙ ap (λ t. xors t (serial_list (zeros n) ones)) fed
      ∙ ap (λ m. xors (zeros m) (serial_list (zeros n) ones))
          (sym (length-serial_list (zeros n) ones ∙ length-replicate n false))
      ∙ zeros-xors (serial_list (zeros n) ones)

  reverse-zeros : (n : ℕ) → reverse (zeros n) ≡ zeros n
  reverse-zeros zero = refl
  reverse-zeros (suc n) = rw (reverse-cons, reverse-zeros n) (zeros-snoc n)

  differ_nowhere :
      (xs ys : List Bool) → length xs ≡ length ys → xors xs ys ≡ zeros (length xs) → xs ≡ ys
  differ_nowhere [] [] len e = refl
  differ_nowhere [] (y ∷ ys) len e = absurd (omega arith)
  differ_nowhere (x ∷ xs) [] len e = absurd (omega arith)
  differ_nowhere (x ∷ xs) (y ∷ ys) len e =
      ap₂ ◌∷◌ (xor-eq-false x y (cons_inj e).0) (differ_nowhere xs ys (omega arith) (cons_inj e).1)

  -- Nothing else has that effect.
  pub residue_only :
      (s ds : List Bool)
      → length ds ≡ length s
      → serial_list s ds ≡ serial_list (zeros (length s)) (replicate (length s) true)
      → ds ≡ complement s
  residue_only s ds len e =
      let n = length s in
      let same : length ds ≡ length (complement s) = len ∙ sym (length-complement s) in
      let out = serial_list s ds in
      let apart : serial_list (zeros n) (xors ds (complement s)) ≡ zeros n =
        ap (λ t. serial_list t (xors ds (complement s))) (sym (xors_self s))
        ∙ serial_list-xors s s ds (complement s) refl same
        ∙ ap (xors out) (residue s ∙ sym e)
        ∙ xors_self out
        ∙ ap zeros (length-serial_list s ds) in
      let width_of : length (xors ds (complement s)) ≡ n =
        length-xors ds (complement s) same ∙ len in
      let back : zeros n ≡ zeros 0 ++ reverse (xors ds (complement s)) =
        emptied (xors ds (complement s)) (zeros n) 0 (omega (arith, length-replicate n false))
          (apart ∙ ap zeros (omega arith)) in
      differ_nowhere ds (complement s) same
        (sym (reverse-reverse _) ∙ ap reverse (sym back) ∙ reverse-zeros n ∙ ap zeros (sym len))
