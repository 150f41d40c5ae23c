-- ===== src/Mac/Crc/Crc32/Feed.antt =====
-- The engine of liteeth/mac/crc.py on the words of a packet, as the shift register on their bits.
use mathlib.Core.Option
use native.Mathlib.Nat.{add-zero}
use liteeth.Prelude.{ℕ, zero, suc, Bool, false, ◌+◌, ◌≡◌, refl, ap, ap₂, sym, ◌∙◌, arith}
use liteeth.Prelude.{List, [], ◌∷◌, ◌++◌, map, length, some, get_or}
use liteeth.Mac.Crc.Engine.Serial.{bits, shift, serial}
use liteeth.Mac.Crc.Engine.Correct.{next-serial, bits-get_or}
use liteeth.Mac.Crc.Residue.{serial_list, length-serial_list}
use liteeth.Mac.Crc.Crc32.{nth_bit, width, polynom, engine_next}
use liteeth.Mac.Crc.Crc32.{crc_of}
use liteeth.Mac.Crc.Crc32.Words.{to_bits, bits-nth_bit}

abbrev pub feed_bits : List Bool → List Bool → List Bool
feed_bits = serial_list width polynom

pub feed_bits-append :
    (s xs ys : List Bool) → feed_bits s (xs ++ ys) ≡ feed_bits (feed_bits s xs) ys
feed_bits-append s [] ys = refl
feed_bits-append s (x ∷ xs) ys = feed_bits-append (shift width polynom s x) xs ys

bits-snoc : (f : ℕ → Bool) (i n : ℕ) → bits f i (suc n) ≡ bits f i n ++ (f (i + n) ∷ [])
unfolding bits
bits-snoc f i zero = ap (λ k. f k ∷ []) (sym (add-zero i))
bits-snoc f i (suc n) =
    let shifted : i + 1 + n ≡ i + suc n = omega arith in
    ap (λ t. f i ∷ t) (bits-snoc f (i + 1) n ∙ ap (λ k. bits f (i + 1) n ++ (f k ∷ [])) shifted)

serial-list :
    (s : List Bool) (f : ℕ → Bool) (n : ℕ) → serial width polynom s f n ≡ feed_bits s (bits f 0 n)
unfolding serial bits
serial-list s f zero = refl
serial-list s f (suc n) =
    ap (λ r. shift width polynom r (f n)) (serial-list s f n)
    ∙ sym (
        ap (feed_bits s) (bits-snoc f 0 n)
        ∙ feed_bits-append s (bits f 0 n) (f (0 + n) ∷ [])
        ∙ ap (λ k. shift width polynom (feed_bits s (bits f 0 n)) (f k)) same)
  where
    same : 0 + n ≡ n
    same = omega arith

map-get_or-some : (l : List Bool) → map (λ o. Option.get_or o false) (map some l) ≡ l
map-get_or-some [] = refl
map-get_or-some (b ∷ l) = ap (λ t. b ∷ t) (map-get_or-some l)

-- The engine's next register is the shift register's after the bits of the data.
pub engine_next-feed :
    (data_width : ℕ) (reg : List Bool) (d : ℕ)
    → length reg ≡ width
    → engine_next data_width reg d ≡ feed_bits reg (to_bits data_width d)
unfolding engine_next
engine_next-feed data_width reg d len =
    let register : bits (λ i. get_or reg i false) 0 width ≡ reg = rw (← len) (bits-get_or reg) in
    ap (map (λ o. Option.get_or o false))
      (next-serial data_width width polynom (λ i. get_or reg i false) (nth_bit d) (omega arith))
    ∙ map-get_or-some _
    ∙ serial-list _ (nth_bit d) data_width
    ∙ ap₂ feed_bits register (bits-nth_bit d data_width)

pub length-engine_next :
    (data_width : ℕ) (reg : List Bool) (d : ℕ)
    → length reg ≡ width
    → length (engine_next data_width reg d) ≡ width
length-engine_next data_width reg d len =
    ap length (engine_next-feed data_width reg d len)
    ∙ length-serial_list width polynom reg (to_bits data_width d)
    ∙ len

abbrev pub words_bits : ℕ → List ℕ → List Bool
words_bits data_width [] = []
words_bits data_width (d ∷ ds) = to_bits data_width d ++ words_bits data_width ds

pub crc_of-feed :
    (data_width : ℕ) (reg : List Bool) (ds : List ℕ)
    → length reg ≡ width
    → crc_of data_width reg ds ≡ feed_bits reg (words_bits data_width ds)
unfolding crc_of
crc_of-feed data_width reg [] len = refl
crc_of-feed data_width reg (d ∷ ds) len =
    crc_of-feed data_width (engine_next data_width reg d) ds
      (length-engine_next data_width reg d len)
    ∙ ap (λ r. feed_bits r (words_bits data_width ds)) (engine_next-feed data_width reg d len)
    ∙ sym (feed_bits-append reg (to_bits data_width d) (words_bits data_width ds))

pub length-crc_of :
    (data_width : ℕ) (reg : List Bool) (ds : List ℕ)
    → length reg ≡ width
    → length (crc_of data_width reg ds) ≡ width
length-crc_of data_width reg ds len =
    ap length (crc_of-feed data_width reg ds len)
    ∙ length-serial_list width polynom reg (words_bits data_width ds)
    ∙ len
