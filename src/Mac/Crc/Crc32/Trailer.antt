-- ===== src/Mac/Crc/Crc32/Trailer.antt =====
-- What the CRC of a packet and the checker's comparison have to do with one another.
use liteeth.Prelude.{
  ℕ, zero, suc, Bool, true, false, not, xor, ◌+◌, ◌*◌, ◌<◌, ◌^◌, ◌≡◌, refl, ap, ap₂, sym, ◌∙◌,
  arith,
}
use liteeth.Prelude.{
  List, [], ◌∷◌, ◌++◌, length, length-append, replicate, take, drop, take-append-drop, length-take,
  length-drop, take-append_left, drop-append_left, drop-drop, ◌≤◌,
}
use liteeth.Mac.Crc.Engine.{pop}
use liteeth.Mac.Crc.Engine.Serial.{bits, feed, shift}
use liteeth.Mac.Crc.Residue.{zeros, complement, length-complement, residue, residue_only}
use liteeth.Mac.Crc.Crc32.{nth_bit, of_bits, width, polynom, check_value, engine_next, value}
use liteeth.Mac.Crc.Crc32.{same_bits, error, crc_of, value_word}
use liteeth.Mac.Crc.Crc32.Words.{to_bits, to_bits-of_bits, of_bits-to_bits, length-to_bits}
use liteeth.Mac.Crc.Crc32.Feed.{feed_bits, words_bits, crc_of-feed}

-- The register's complement, cut into words, and joined again.
abbrev chunks : ℕ → ℕ → List Bool → List ℕ
chunks data_width zero l = []
chunks data_width (suc n) l = of_bits (take data_width l) ∷ chunks data_width n (drop data_width l)

to_bits-take : (n : ℕ) (l : List Bool) → n ≤ length l → to_bits n (of_bits (take n l)) ≡ take n l
to_bits-take n l h =
    let len : n ≡ length (take n l) = omega (arith, length-take n l) in
    ap (λ k. to_bits k (of_bits (take n l))) len ∙ to_bits-of_bits (take n l)

words_bits-chunks :
    (data_width n : ℕ) (l : List Bool)
    → length l ≡ n * data_width
    → words_bits data_width (chunks data_width n l) ≡ l
words_bits-chunks data_width zero [] h = refl
words_bits-chunks data_width zero (b ∷ l) h = absurd (omega arith)
words_bits-chunks data_width (suc n) l h =
    ap₂ ◌++◌ (to_bits-take data_width l (omega arith))
      (words_bits-chunks data_width n (drop data_width l) (omega (arith, length-drop data_width l)))
    ∙ take-append-drop data_width l

abbrev pub AllBelow : ℕ → List ℕ → Type 0
AllBelow m [] = Unit
AllBelow m (d ∷ ds) = (d < m) × AllBelow m ds

chunks-words_bits :
    (data_width : ℕ) (ds : List ℕ)
    → AllBelow (2 ^ data_width) ds
    → chunks data_width (length ds) (words_bits data_width ds) ≡ ds
chunks-words_bits data_width [] h = refl
chunks-words_bits data_width (d ∷ ds) h =
    let bs = to_bits data_width d in
    let rest = words_bits data_width ds in
    let len : length bs ≡ data_width = length-to_bits data_width d in
    let first : take data_width (bs ++ rest) ≡ bs =
      ap (λ k. take k (bs ++ rest)) (sym len) ∙ take-append_left bs rest in
    let others : drop data_width (bs ++ rest) ≡ rest =
      ap (λ k. drop k (bs ++ rest)) (sym len) ∙ drop-append_left bs rest in
    ap₂ ◌∷◌ (ap of_bits first ∙ of_bits-to_bits data_width d h.0)
      (ap (chunks data_width (length ds)) others ∙ chunks-words_bits data_width ds h.1)

-- What the inserter sends behind a packet: the words of `value`, lowest first.
abbrev pub value_words : ℕ → List Bool → ℕ → ℕ → List ℕ
value_words data_width reg k zero = []
value_words data_width reg k (suc n) =
    value_word data_width reg k ∷ value_words data_width reg (k + 1) n

value_words-chunks :
    (data_width k n : ℕ) (reg : List Bool)
    → value_words data_width reg k n ≡ chunks data_width n (drop (data_width * k) (value reg))
unfolding value_word
value_words-chunks data_width k zero reg = refl
value_words-chunks data_width k (suc n) reg = ap₂ ◌∷◌ refl (
    value_words-chunks data_width (k + 1) n reg
    ∙ ap (chunks data_width n) (
        sym
          (drop-drop data_width (data_width * k) (data_width * (k + 1)) (value reg) (grind arith))))

value-complement : (reg : List Bool) → value reg ≡ complement reg
unfolding value complement
value-complement reg = refl

value_words-complement :
    (data_width n : ℕ) (reg : List Bool)
    → value_words data_width reg 0 n ≡ chunks data_width n (complement reg)
value_words-complement data_width n reg =
    let none_dropped : data_width * 0 ≡ 0 = omega arith in
    value_words-chunks data_width 0 n reg
    ∙ ap (λ k. chunks data_width n (drop k (value reg))) none_dropped
    ∙ ap (chunks data_width n) (value-complement reg)

length-words_bits :
    (data_width : ℕ) (ds : List ℕ) → length (words_bits data_width ds) ≡ length ds * data_width
length-words_bits data_width [] = omega arith
length-words_bits data_width (d ∷ ds) = omega (
  arith,
  length-append (to_bits data_width d) (words_bits data_width ds),
  length-to_bits data_width d,
  length-words_bits data_width ds,
)

not-eq-false : {b : Bool} → not b ≡ false → b ≡ true
not-eq-false {b} h = ground arith

pub value_words-bits :
    (data_width n : ℕ) (reg : List Bool)
    → length reg ≡ width
    → n * data_width ≡ width
    → words_bits data_width (value_words data_width reg 0 n) ≡ complement reg
value_words-bits data_width n reg len fits =
    ap (words_bits data_width) (value_words-complement data_width n reg)
    ∙ words_bits-chunks data_width n (complement reg) (length-complement reg ∙ len ∙ sym fits)

same_bits→eq : (xs ys : List Bool) → same_bits xs ys ≡ true → xs ≡ ys
same_bits→eq [] [] h = refl
same_bits→eq [] (y ∷ ys) h = cc
same_bits→eq (x ∷ xs) [] h = cc
same_bits→eq (true ∷ xs) (true ∷ ys) h = ap (λ t. true ∷ t) (same_bits→eq xs ys h)
same_bits→eq (true ∷ xs) (false ∷ ys) h = cc
same_bits→eq (false ∷ xs) (true ∷ ys) h = cc
same_bits→eq (false ∷ xs) (false ∷ ys) h = ap (λ t. false ∷ t) (same_bits→eq xs ys h)

same_bits_self : (xs : List Bool) → same_bits xs xs ≡ true
same_bits_self [] = refl
same_bits_self (true ∷ xs) = same_bits_self xs
same_bits_self (false ∷ xs) = same_bits_self xs

-- `check` is what a complement leaves in the register.
check_lem : bits (nth_bit check_value) 0 width ≡ feed_bits (zeros width) (replicate width true)
unfolding bits nth_bit shift feed pop xor
check_lem = refl

crc_of-snoc :
    (data_width : ℕ) (reg : List Bool) (ds : List ℕ) (d : ℕ)
    → engine_next data_width (crc_of data_width reg ds) d ≡ crc_of data_width reg (ds ++ (d ∷ []))
unfolding crc_of
crc_of-snoc data_width reg [] d = refl
crc_of-snoc data_width reg (e ∷ ds) d = crc_of-snoc data_width (engine_next data_width reg e) ds d

AllBelow-snoc : (m : ℕ) (ds : List ℕ) (d : ℕ) → AllBelow m ds → d < m → AllBelow m (ds ++ (d ∷ []))
AllBelow-snoc m [] d h k = (k, tt)
AllBelow-snoc m (e ∷ ds) d h k = (h.0, AllBelow-snoc m ds d h.1 k)

module _ (data_width : ℕ) (reg : List Bool) (ts : List ℕ) (t : ℕ) (len : length reg ≡ width)
    (fits : suc (length ts) * data_width ≡ width) where
  abbrev trailer : List ℕ
  trailer = ts ++ (t ∷ [])

  last_register :
      engine_next data_width (crc_of data_width reg ts) t
      ≡ feed_bits reg (words_bits data_width trailer)
  last_register = crc_of-snoc data_width reg ts t ∙ crc_of-feed data_width reg trailer len

  residual : feed_bits reg (complement reg) ≡ bits (nth_bit check_value) 0 width
  residual =
      residue width polynom reg
      ∙ ap (λ n. feed_bits (zeros n) (replicate n true)) len
      ∙ sym check_lem

  -- From any register of 32 bits, at any data width that divides 32, the comparison reports no
  -- error on the last word of a trailer that is the words of the register's `value`, lowest first.
  pub error-of_words :
      trailer ≡ value_words data_width reg 0 (suc (length ts))
      → error data_width (crc_of data_width reg ts) t ≡ false
  unfolding error
  error-of_words e = rw (
    last_register,
    e,
    value_words-bits data_width (suc (length ts)) reg len fits,
    residual,
    same_bits_self,
  )

  -- From any register of 32 bits, at any data width that divides 32, a trailer of as many words as
  -- the CRC has, on whose last word the comparison reports no error, is the words of the register's
  -- `value`, lowest first.
  pub words_of_error :
      AllBelow (2 ^ data_width) ts
      → t < 2 ^ data_width
      → error data_width (crc_of data_width reg ts) t ≡ false
      → trailer ≡ value_words data_width reg 0 (suc (length ts))
  unfolding error
  words_of_error hs h e =
      let n = suc (length ts) in
      let length-trailer : length trailer ≡ n = omega (arith, length-append ts (t ∷ [])) in
      let found : feed_bits reg (words_bits data_width trailer)
          ≡ feed_bits (zeros (length reg)) (replicate (length reg) true) =
        sym last_register
        ∙ same_bits→eq _ _ (not-eq-false e)
        ∙ check_lem
        ∙ ap (λ m. feed_bits (zeros m) (replicate m true)) (sym len) in
      let sent : words_bits data_width trailer ≡ complement reg =
        residue_only width polynom reg (words_bits data_width trailer)
          (length-words_bits data_width trailer
            ∙ ap (λ m. m * data_width) length-trailer
            ∙ fits
            ∙ sym len)
          found in
      sym (chunks-words_bits data_width trailer (AllBelow-snoc (2 ^ data_width) ts t hs h))
      ∙ ap₂ (chunks data_width) length-trailer sent
      ∙ sym (value_words-complement data_width n reg)
