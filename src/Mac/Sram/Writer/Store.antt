-- ===== src/Mac/Sram/Writer/Store.antt =====
-- What the writer of liteeth/mac/sram.py does with one frame.
use liteeth.Prelude.{ℕ, suc, Bool, true, false, ◌+◌, ◌*◌, ◌/◌, ◌%◌, ◌^◌, ◌<◌, ◌&&◌, ◌||◌, not}
use liteeth.Prelude.{List, [], ◌∷◌, length, ◌==◌, if◌then◌else◌, ◌≡◌, refl, arith}
use liteeth.Prelude.{Bool-cases, inl, inr}
use liteeth.Mac.Sram.{eth_mtu, Slot, Mems, write, word_adr, written}
use liteeth.Mac.Sram.Writer.{write_state}
use liteeth.Mac.Sram.Writer.{Writer, Cycle, inc, write_step, at}
use liteeth.Machine.{Leads, Leads-nil, Leads-on}

-- A cycle within a frame: no beat, or a beat of four bytes that is not the last.
abbrev pub is_inner : Bool → Cycle → Bool
is_inner big c = not c.sink.valid || (not c.sink.beat.last && inc big c.sink.beat.last_be == 4)

abbrev pub all_inner : Bool → List Cycle → Bool
all_inner big [] = true
all_inner big (c ∷ cs) = is_inner big c && all_inner big cs

abbrev pub words_of : List Cycle → List ℕ
words_of [] = []
words_of (c ∷ cs) = if c.sink.valid then c.sink.beat.data_word ∷ words_of cs else words_of cs

-- 1530 is no multiple of 4.
pub not_mtu : (k : ℕ) → (4 * k == eth_mtu) ≡ false
not_mtu k = ground arith

pub word_at : (adr_bits k : ℕ) → word_adr adr_bits (4 * k) ≡ k % 2 ^ adr_bits
word_at adr_bits k = let e : 4 * k / 4 ≡ k = omega arith in rw e refl

module _ (big : Bool) (slotbits adr_bits : ℕ) where
  four_on : (k : ℕ) → 4 * k + 4 < 2 ^ 32 → (4 * k + 4) % 2 ^ 32 ≡ 4 * (k + 1)
  four_on k h = omega arith

  abbrev Led : Writer → List Cycle → Writer → List Slot → Type 0
  Led = Leads (write_step big slotbits adr_bits)

  taken_tick :
      (k slot errors : ℕ) (mems : Mems) (c : Cycle)
      → is_inner big c ≡ true
      → c.sink.valid ≡ true
      → 4 * k + 4 < 2 ^ 32
      → write_step big slotbits adr_bits (at write_state (4 * k) slot errors mems) c ≡ (
        at write_state
            (4 * (k + 1))
            slot
            errors
            (write slot (k % 2 ^ adr_bits) c.sink.beat.data_word mems),
        [],
      )
  unfolding write_step
  taken_tick k slot errors mems c h v fits =
      ground (arith, four_on k, word_at adr_bits k, not_mtu k)

  quiet_tick :
      (k slot errors : ℕ) (mems : Mems) (c : Cycle)
      → c.sink.valid ≡ false
      → write_step big slotbits adr_bits (at write_state k slot errors mems) c
        ≡ (at write_state k slot errors mems, [])
  unfolding write_step
  quiet_tick k slot errors mems c v = ground arith

  pub inner_run :
      (k slot errors : ℕ) (mems : Mems) (cs : List Cycle)
      → all_inner big cs ≡ true
      → 4 * (k + length (words_of cs)) < 2 ^ 32
      → Led
          (at write_state (4 * k) slot errors mems)
          cs
          (at write_state
            (4 * (k + length (words_of cs)))
            slot
            errors
            (written adr_bits slot k (words_of cs) mems))
          []
  unfolding written
  inner_run k slot errors mems [] h fits = let e : k + 0 ≡ k = omega arith in rw e (Leads-nil _ _)
  inner_run k slot errors mems (c ∷ cs) h fits = elim (Bool-cases c.sink.valid) [
    | inl v ↦
        let e : k + suc (length (words_of cs)) ≡ k + 1 + length (words_of cs) = omega arith in
        let mems' = write slot (k % 2 ^ adr_bits) c.sink.beat.data_word mems in
        let rest = inner_run (k + 1) slot errors mems' cs (ground arith) (ground arith) in
        let now = taken_tick k slot errors mems c (ground arith) v (ground arith) in
        simp (v, e) (Leads-on _ now rest)
    | inr v ↦
        let rest = inner_run k slot errors mems cs (ground arith) (ground arith) in
        let now = quiet_tick (4 * k) slot errors mems c v in simp v (Leads-on _ now rest)
  ]
