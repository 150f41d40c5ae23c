-- ===== src/Mac/Sram/Writer/Bounds.antt =====
-- The registers of the writer in liteeth/mac/sram.py through any schedule.
use native.Mathlib.Nat.{mod-eq_of_lt, mod-lt, mod-add-mod}
use mathlib.Core.Path.{subst}
use liteeth.Prelude.{ℕ, Bool, ◌+◌, ◌%◌, ◌^◌, ◌<◌, ◌≡◌, ◌&&◌, not, refl, ap, sym, ◌∙◌}
use liteeth.Prelude.{List, [], ◌∷◌, arith, if◌then◌else◌}
use liteeth.Machine.{ticks}
use liteeth.Mac.Sram.{Mems}
use liteeth.Mac.Sram.Writer.{State, idle, write_state, discard, discard_remaining, terminate}
use liteeth.Mac.Sram.Writer.{Writer, Cycle, write_step, at}

-- One for a cycle that ends a frame in a slot, and for one that refuses a frame.
abbrev pub ends : State → ℕ
ends terminate = 1
ends _ = 0

abbrev pub refuses : State → Cycle → ℕ
refuses idle c = if c.sink.valid && not c.room then 1 else 0
refuses _ c = 0

-- The counter is 0 where a frame begins.
abbrev pub Cleared : State → ℕ → Type 0
Cleared idle counter = counter ≡ 0
Cleared _ counter = Unit

module _ (big : Bool) (slotbits adr_bits : ℕ) where
  abbrev step : Writer → Cycle → Writer
  step w c = (write_step big slotbits adr_bits w c).0

  unfoldable pub ended : Writer → List Cycle → ℕ
  ended w [] = 0
  ended w (c ∷ cs) = ends w.fsm + ended (step w c) cs

  unfoldable pub refused : Writer → List Cycle → ℕ
  refused w [] = 0
  refused w (c ∷ cs) = refuses w.fsm c + refused (step w c) cs

  record Counted (w v : Writer) (c : Cycle) : Type 0 where
    pub slot_on : v.slot ≡ (w.slot + ends w.fsm) % 2 ^ slotbits
    pub errors_on : v.errors ≡ (w.errors + refuses w.fsm c) % 2 ^ 32
    pub cleared : Cleared v.fsm v.counter

  same_mod : (n m : ℕ) → n < m → n ≡ (n + 0) % m
  same_mod n m h = let zero : n + 0 ≡ n = omega arith in sym (ap (λ k. k % m) zero ∙ mod-eq_of_lt h)

  Counted-at :
      (s : State) (counter slot errors : ℕ) (mems : Mems) (c : Cycle)
      → slot < 2 ^ slotbits
      → errors < 2 ^ 32
      → Cleared s counter
      → Counted (at s counter slot errors mems) (step (at s counter slot errors mems) c) c
  unfolding write_step
  Counted-at idle counter slot errors mems c p q h = record {
    slot_on = same_mod slot (2 ^ slotbits) p;
    errors_on = ground arith;
    cleared = ground arith;
  }
  Counted-at write_state counter slot errors mems c p q h = record {
    slot_on = same_mod slot (2 ^ slotbits) p;
    errors_on = ground arith;
    cleared = ground arith;
  }
  Counted-at discard counter slot errors mems c p q h = record {
    slot_on = same_mod slot (2 ^ slotbits) p;
    errors_on = ground arith;
    cleared = refl;
  }
  Counted-at discard_remaining counter slot errors mems c p q h = record {
    slot_on = same_mod slot (2 ^ slotbits) p;
    errors_on = ground arith;
    cleared = ground arith;
  }
  Counted-at terminate counter slot errors mems c p q h = record {
    slot_on = refl;
    errors_on = ground arith;
    cleared = refl;
  }

  add_up : (m a e rest : ℕ) → ((a + e) % m + rest) % m ≡ (a + (e + rest)) % m
  add_up m a e rest =
      let same : a + e + rest ≡ a + (e + rest) = omega arith in
      mod-add-mod (a + e) m rest ∙ ap (λ n. n % m) same

  -- Through any schedule, from registers within their widths, the slot of the writer goes on by one
  -- for each cycle in TERMINATE and the error count by one for each frame that is refused, both
  -- modulo their widths, and the counter is 0 whenever the writer is in IDLE, if it was at first.
  pub write_step-counted :
      (w : Writer) (cs : List Cycle)
      → w.slot < 2 ^ slotbits
      → w.errors < 2 ^ 32
      → Cleared w.fsm w.counter
      → let end = ticks (write_step big slotbits adr_bits) w cs in
        (end.slot ≡ (w.slot + ended w cs) % 2 ^ slotbits)
        × (end.errors ≡ (w.errors + refused w cs) % 2 ^ 32)
        × Cleared end.fsm end.counter
  unfolding ticks ended refused
  write_step-counted w [] p q h =
      (same_mod w.slot (2 ^ slotbits) p, same_mod w.errors (2 ^ 32) q, h)
  write_step-counted w (c ∷ cs) p q h =
      let v = step w c in
      let one = Counted-at w.fsm w.counter w.slot w.errors w.mems c p q h in
      let m = 2 ^ slotbits in
      let slot_fits : v.slot < m =
        subst (λ n. n < m) (sym one.slot_on) (mod-lt (w.slot + ends w.fsm) (omega (arith, p))) in
      let errors_fits : v.errors < 2 ^ 32 = omega (arith, one.errors_on) in
      let rest = write_step-counted v cs slot_fits errors_fits one.cleared in
      (
        rest.0
            ∙ ap (λ n. (n + ended v cs) % m) one.slot_on
            ∙ add_up m w.slot (ends w.fsm) (ended v cs),
        rest.1
            ∙ ap (λ n. (n + refused v cs) % 2 ^ 32) one.errors_on
            ∙ add_up (2 ^ 32) w.errors (refuses w.fsm c) (refused v cs),
        rest.2,
      )
