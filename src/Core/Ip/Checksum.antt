-- ===== src/Core/Ip/Checksum.antt =====
-- `LiteEthIPV4Checksum` of liteeth/core/ip.py, at one word per clock cycle, as the cores use it. A
-- header is the list of its ten 16-bit words, as `header[i*16:(i+1)*16]` cuts them out.
pub mod Settle
pub mod Sum
pub mod Accept
use liteeth.Prelude.{ℕ, zero, suc, Bool, true, false, not, ◌+◌, ◌-◌, ◌*◌, ◌/◌, ◌%◌, ◌^◌, ◌&&◌, ◌==◌}
use liteeth.Prelude.{List, [], ◌∷◌, if◌then◌else◌, length}

-- The registers `r` of the stages, first stage first, and the counter.
pub record Checksum : Type 0 where
  pub stages : List ℕ
  pub counter : ℕ

-- `Cat(s_next[:16]+s_next[16], Signal())`, in 17 bits
abbrev pub carry_around : ℕ → ℕ
carry_around s = (s % 2 ^ 16 + s / 2 ^ 16 % 2) % 2 ^ 17

-- One stage: the sum in 17 bits, and the carry added to it.
unfoldable pub stage : ℕ → ℕ → ℕ
stage r word = carry_around ((r + word) % 2 ^ 17)

-- The words that have a stage: with `skip_checksum` word 5 has none.
unfoldable pub summed_words : Bool → ℕ → List ℕ → List ℕ
summed_words skip i [] = []
summed_words skip i (w ∷ ws) =
    let rest = summed_words skip (i + 1) ws in if skip && i == 10 / 2 then rest else w ∷ rest

-- Each register takes what its stage makes of the register before it and of its word.
unfoldable pub pipe : ℕ → List ℕ → List ℕ → List ℕ
pipe r [] ws = []
pipe r (s ∷ ss) [] = []
pipe r (s ∷ ss) (w ∷ ws) = stage r w ∷ pipe s ss ws

-- The last register, of which `value` is made.
unfoldable pub last_stage : ℕ → List ℕ → ℕ
last_stage r [] = r
last_stage r (s ∷ ss) = last_stage s ss

abbrev pub swap16 : ℕ → ℕ
swap16 r = r / 2 ^ 8 % 2 ^ 8 + r % 2 ^ 8 * 2 ^ 8

-- `~Cat(r[8:16], r[:8])`
unfoldable pub value : Checksum → ℕ
value c = 2 ^ 16 - 1 - swap16 (last_stage 0 c.stages)

module _ (skip_checksum : Bool) where
  abbrev pub n_cycles : ℕ → ℕ
  n_cycles stages = if skip_checksum then stages else stages + 1

  unfoldable pub done : Checksum → Bool
  done c = c.counter == n_cycles (length c.stages)

  -- A clock edge. `reset` clears the counter alone: the other registers are `reset_less`.
  unfoldable pub tick : Bool → Bool → List ℕ → Checksum → Checksum
  tick ce reset header c =
      let works = ce && not (done c) in
      record {
        stages = if works then pipe 0 c.stages (summed_words skip_checksum 0 header) else c.stages;
        counter = if reset then 0 else if works then c.counter + 1 else c.counter;
      }

  -- `n` edges with `ce` high and `reset` low.
  unfoldable pub ticks : ℕ → List ℕ → Checksum → Checksum
  ticks zero header c = c
  ticks (suc n) header c = ticks n header (tick true false header c)
