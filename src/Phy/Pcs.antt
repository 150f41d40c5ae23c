-- ===== src/Phy/Pcs.antt =====
-- liteeth/phy/pcs_1000basex.py: the coding layer of 1000BASE-X and SGMII. The 8b/10b encoder and
-- decoder are the library's: a symbol is what stands at their `k` and `d`.
pub mod Transmit
pub mod Receive
pub mod Frame
pub mod Align
pub mod Config
pub mod Ability
pub mod Autoneg
use liteeth.Prelude.{ℕ, Bool, true, false, ◌+◌, ◌-◌, ◌*◌, ◌&&◌, ◌||◌, not, ◌==◌, if◌then◌else◌}

pub record Symbol : Type 0 where
  pub k : Bool
  pub d : ℕ

-- `K(x, y)` and `D(x, y)`: the fields do not overlap.
abbrev pub code : ℕ → ℕ → ℕ
code x y = y * 32 + x

-- K28.5, /S/, /T/ and /R/, then what follows a K28.5: configuration words and idles of two kinds.
abbrev pub comma : ℕ
comma = code 28 5

abbrev pub start_of_packet : ℕ
start_of_packet = code 27 7

abbrev pub end_of_packet : ℕ
end_of_packet = code 29 7

abbrev pub carrier_extend : ℕ
carrier_extend = code 23 7

abbrev pub config_1 : ℕ
config_1 = code 21 5

abbrev pub config_2 : ℕ
config_2 = code 2 2

abbrev pub idle_1 : ℕ
idle_1 = code 5 6

abbrev pub idle_2 : ℕ
idle_2 = code 16 2

-- The reload value of the timers for SGMII data rates; at the speed 0b11 they keep their value.
abbrev pub reload : ℕ → ℕ → ℕ
reload speed timer =
    if speed == 0 then 99 else if speed == 1 then 9 else if speed == 2 then 0 else timer

abbrev pub next_timer : ℕ → Bool → ℕ → ℕ
next_timer speed timer_en timer =
    if not timer_en || timer == 0 then reload speed timer else timer - 1
