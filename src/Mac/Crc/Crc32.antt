-- ===== src/Mac/Crc/Crc32.antt =====
-- `LiteEthMACCRC32` of liteeth/mac/crc.py: the register of IEEE 802.3 around the engine.
pub mod Words
pub mod Feed
pub mod Trailer
use mathlib.Core.List.{reverse}
use mathlib.Core.Option
use liteeth.Prelude.{ℕ, zero, suc, Bool, true, false, not, ◌+◌, ◌*◌, ◌/◌, ◌%◌, ◌^◌, ◌&&◌, ◌==◌}
use liteeth.Prelude.{List, [], ◌∷◌, map, if◌then◌else◌, replicate, take, drop, get_or}
use liteeth.Mac.Crc.Engine.{next}
use liteeth.Mac.Crc.Engine.Serial.{bits}

-- Bit `i` of a signal that holds `d`.
unfoldable pub nth_bit : ℕ → ℕ → Bool
nth_bit d zero = d % 2 == 1
nth_bit d (suc i) = nth_bit (d / 2) i

unfoldable pub of_bits : List Bool → ℕ
of_bits [] = 0
of_bits (b ∷ bs) = (if b then 1 else 0) + 2 * of_bits bs

abbrev pub width : ℕ
width = 32

abbrev pub polynom : ℕ
polynom = 0x04C11DB7

-- `check`
abbrev pub check_value : ℕ
check_value = 0xC704DD7B

-- `reg` is the list of its bits, lowest first.
abbrev pub init : List Bool
init = replicate width true

-- `engine.next`; a bit for which `reduce` would raise is false here.
unfoldable pub engine_next : ℕ → List Bool → ℕ → List Bool
engine_next data_width reg d =
    map (λ o. Option.get_or o false)
      (next data_width width polynom (λ i. get_or reg i false) (nth_bit d))

-- `~reg[::-1]`
unfoldable pub value : List Bool → List Bool
value reg = map not (reverse reg)

abbrev pub same_bits : List Bool → List Bool → Bool
same_bits [] [] = true
same_bits (b ∷ bs) (c ∷ cs) = (if b then c else not c) && same_bits bs cs
same_bits _ _ = false

-- The checker's output `error`, on the cycle of the data `d`.
unfoldable pub error : ℕ → List Bool → ℕ → Bool
error data_width reg d =
    not (same_bits (engine_next data_width reg d) (bits (nth_bit check_value) 0 width))

-- The register over a clock edge: `reset` goes before `ce`.
unfoldable pub clock : ℕ → Bool → Bool → List Bool → ℕ → List Bool
clock data_width reset ce reg d =
    if reset then init else if ce then engine_next data_width reg d else reg

-- The register after the data of a packet.
unfoldable pub crc_of : ℕ → List Bool → List ℕ → List Bool
crc_of data_width reg [] = reg
crc_of data_width reg (d ∷ ds) = crc_of data_width (engine_next data_width reg d) ds

-- `chooser(crc.value, cnt, …, reverse=True)` at the word with index `k`.
unfoldable pub value_word : ℕ → List Bool → ℕ → ℕ
value_word data_width reg k = of_bits (take data_width (drop (data_width * k) (value reg)))
