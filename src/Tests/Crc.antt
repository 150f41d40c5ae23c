-- ===== src/Tests/Crc.antt =====
-- The CRC on concrete registers and packets.
use liteeth.Prelude.{ℕ, Bool, true, false, ◌≡◌, refl, arith, List, [], ◌∷◌, ◌++◌, map}
use liteeth.Prelude.{replicate, some}
use liteeth.Stream.{line, run, willing_count}
use liteeth.Stream.Packets.{concat}
use liteeth.Mac.Crc.Engine.{next}
use liteeth.Mac.Crc.Engine.Serial.{bits, serial}
use liteeth.Mac.Crc.Engine.Correct.{next-serial}
use liteeth.Mac.Crc.Crc32.{polynom, error, crc_of, value, value_word, of_bits, nth_bit}
use liteeth.Mac.Crc.Crc32.Trailer.{value_words, error-of_words, words_of_error}
use liteeth.Mac.Crc.Inserter.{insert_step}
use liteeth.Mac.Crc.Inserter.Packets.{with_crc, started, run-with_crc}
use liteeth.Tests.Data.{two_packets, schedule}

next-serial_example :
    next 8 32 polynom (nth_bit 0xffffffff) (nth_bit 0x31)
    ≡ map some (serial 32 polynom (bits (nth_bit 0xffffffff) 0 32) (nth_bit 0x31) 8)
next-serial_example = next-serial 8 32 polynom (nth_bit 0xffffffff) (nth_bit 0x31) (omega arith)

-- A register whose `value` is 0x7fffffff.
abbrev register : List Bool
register = true ∷ replicate 31 false

abbrev trailer : List ℕ
trailer = 0xff ∷ 0xff ∷ 0xff ∷ []

error-of_words_example : error 8 (crc_of 8 register trailer) 0x7f ≡ false
unfolding value value_word of_bits
error-of_words_example = error-of_words 8 register trailer 0x7f refl refl refl

words_of_error_example : trailer ++ (0x7f ∷ []) ≡ value_words 8 register 0 4
unfolding value value_word of_bits
words_of_error_example =
    words_of_error 8 register trailer 0x7f refl refl (omega arith, (omega arith, (omega arith, tt)))
      (omega arith) (error-of_words 8 register trailer 0x7f refl refl refl)

abbrev ones : List Bool
ones = replicate 32 true

run-with_crc_example :
    run (insert_step 8) (line (started ones 1) (concat two_packets)) (schedule 13)
    ≡ concat (map (with_crc 8) two_packets)
unfolding willing_count
run-with_crc_example =
    run-with_crc 8 ones 1 (omega arith) two_packets ((refl, refl), (refl, tt)) (schedule 13)
      (omega arith)
