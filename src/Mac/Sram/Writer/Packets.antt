-- ===== src/Mac/Sram/Writer/Packets.antt =====
-- What the writer of liteeth/mac/sram.py does with a sequence of frames.
use liteeth.Prelude.{ℕ, suc, Bool, true, false, ◌+◌, ◌*◌, ◌%◌, ◌^◌, ◌<◌, ◌&&◌, ◌||◌, not}
use liteeth.Prelude.{List, [], ◌∷◌, ◌++◌, length, if◌then◌else◌, ◌≡◌, refl, arith}
use liteeth.Prelude.{Bool-cases, inl, inr}
use liteeth.Stream.{Beat}
use liteeth.Mac.Sram.{Slot, Mems, write, written}
use liteeth.Mac.Sram.Writer.{idle, write_state, discard_remaining}
use liteeth.Mac.Sram.Writer.{Writer, Cycle, inc, has_error, write_step, at}
use liteeth.Mac.Sram.Writer.Store.{all_inner, words_of, inner_run, word_at, not_mtu}
use liteeth.Machine.{ticks, outs, Leads, Leads-nil, Leads-on, Leads-append}
use liteeth.Mac.Sram.Writer.Frame.{
  Frame, all_quiet, byte_length, cycles, frame_errors, frame_mems, frame_slot, frame_status,
  is_frame, with_beat,
}

module _ (big : Bool) (slotbits adr_bits : ℕ) where
  abbrev Led : Writer → List Cycle → Writer → List Slot → Type 0
  Led = Leads (write_step big slotbits adr_bits)

  quiet_run :
      (slot errors : ℕ) (mems : Mems) (cs : List Cycle)
      → all_quiet cs ≡ true
      → Led (at idle 0 slot errors mems) cs (at idle 0 slot errors mems) []
  unfolding write_step
  quiet_run slot errors mems [] h = Leads-nil _ _
  quiet_run slot errors mems (c ∷ cs) h =
      let rest = quiet_run slot errors mems cs (ground arith) in
      let v : c.sink.valid ≡ false = ground arith in
      let now : write_step big slotbits adr_bits (at idle 0 slot errors mems) c
          ≡ (at idle 0 slot errors mems, []) =
        ground arith in
      Leads-on _ now rest

  skip_run :
      (slot errors : ℕ) (mems : Mems) (cs : List Cycle)
      → all_inner big cs ≡ true
      → Led
          (at discard_remaining 0 slot errors mems)
          cs
          (at discard_remaining 0 slot errors mems)
          []
  unfolding write_step
  skip_run slot errors mems [] h = Leads-nil _ _
  skip_run slot errors mems (c ∷ cs) h =
      let rest = skip_run slot errors mems cs (ground arith) in
      let v : (c.sink.valid && c.sink.beat.last) ≡ false = ground arith in
      let now : write_step big slotbits adr_bits (at discard_remaining 0 slot errors mems) c
          ≡ (at discard_remaining 0 slot errors mems, []) =
        ground arith in
      Leads-on _ now rest

  written_end :
      (slot k : ℕ) (ws : List ℕ) (w : ℕ) (mems : Mems)
      → written adr_bits slot k (ws ++ (w ∷ [])) mems
        ≡ write slot ((k + length ws) % 2 ^ adr_bits) w (written adr_bits slot k ws mems)
  unfolding written
  written_end slot k [] w mems = let e : k + 0 ≡ k = omega arith in rw e refl
  written_end slot k (x ∷ ws) w mems =
      let e : k + suc (length ws) ≡ k + 1 + length ws = omega arith in
      rw e (written_end slot (k + 1) ws w _)

  -- The last beat of a frame that is stored, and the cycle behind it.
  end_run :
      (k slot errors : ℕ) (mems : Mems) (x : Beat) (room : Bool) (behind : Cycle)
      → x.last ≡ true
      → 4 * k + 4 < 2 ^ 32
      → Led
          (at write_state (4 * k) slot errors mems)
          (with_beat x room ∷ (behind ∷ []))
          (at idle 0
            (if has_error x then slot else (slot + 1) % 2 ^ slotbits)
            errors
            (write slot (k % 2 ^ adr_bits) x.data_word mems))
          (if has_error x || not behind.room
            then []
            else record { slot = slot; length = 4 * k + inc big x.last_be } ∷ [])
  unfolding write_step ticks outs
  end_run k slot errors mems x room behind last fits =
      let count : (4 * k + inc big x.last_be) % 2 ^ 32 ≡ 4 * k + inc big x.last_be = ground arith in
      record {
        reaches = ground (arith, word_at adr_bits k, not_mtu k);
        passes = ground (arith, count, not_mtu k);
      }

  -- The first beat of a frame.
  first_tick :
      (slot errors : ℕ) (mems : Mems) (x : Beat)
      → inc big x.last_be ≡ 4
      → write_step big slotbits adr_bits (at idle 0 slot errors mems) (with_beat x true)
        ≡ (at write_state 4 slot errors (write slot (0 % 2 ^ adr_bits) x.data_word mems), [])
  unfolding write_step
  first_tick slot errors mems x h = ground (arith, word_at adr_bits 0)

  refused_end :
      (slot errors : ℕ) (mems : Mems) (x : Beat) (room : Bool) (behind : Cycle)
      → x.last ≡ true
      → Led
          (at discard_remaining 0 slot errors mems)
          (with_beat x room ∷ (behind ∷ []))
          (at idle 0 ((slot + 1) % 2 ^ slotbits) errors mems)
          (if not behind.room then [] else record { slot = slot; length = 0 } ∷ [])
  unfolding write_step ticks outs
  refused_end slot errors mems x room behind last = record {
    reaches = ground arith;
    passes = ground arith;
  }

  refused_tick :
      (slot errors : ℕ) (mems : Mems) (x : Beat)
      → write_step big slotbits adr_bits (at idle 0 slot errors mems) (with_beat x false)
        ≡ (at discard_remaining 0 slot ((errors + 1) % 2 ^ 32) mems, [])
  unfolding write_step
  refused_tick slot errors mems x = refl

  stored_run :
      (slot errors : ℕ) (mems : Mems) (f : Frame)
      → is_frame big f ≡ true
      → byte_length big f + 4 < 2 ^ 32
      → f.room ≡ true
      → Led
          (at idle 0 slot errors mems)
          (cycles f)
          (at idle 0
            (frame_slot big slotbits adr_bits slot f)
            (frame_errors big slotbits adr_bits errors f)
            (frame_mems big slotbits adr_bits slot f mems))
          (frame_status big slot f)
  unfolding written
  stored_run slot errors mems f h fits r =
      let mems' = write slot (0 % 2 ^ adr_bits) f.first.data_word mems in
      let inner =
        inner_run big slotbits adr_bits 1 slot errors mems' f.inner (ground arith) (ground arith) in
      let k = 1 + length (words_of f.inner) in
      let last =
        end_run k slot errors (written adr_bits slot 1 (words_of f.inner) mems') f.final
          f.final_room f.behind (ground arith) (ground arith) in
      let first = first_tick slot errors mems f.first (ground arith) in
      let rest = Leads-on _ first (Leads-append _ inner last) in
      let quiet = quiet_run slot errors mems f.quiet (ground arith) in
      let e = written_end slot 1 (words_of f.inner) f.final.data_word mems' in
      simp (r, e) (Leads-append _ quiet rest)

  refused_run :
      (slot errors : ℕ) (mems : Mems) (f : Frame)
      → is_frame big f ≡ true
      → f.room ≡ false
      → Led
          (at idle 0 slot errors mems)
          (cycles f)
          (at idle 0
            (frame_slot big slotbits adr_bits slot f)
            (frame_errors big slotbits adr_bits errors f)
            (frame_mems big slotbits adr_bits slot f mems))
          (frame_status big slot f)
  refused_run slot errors mems f h r =
      let errors' = (errors + 1) % 2 ^ 32 in
      let inner = skip_run slot errors' mems f.inner (ground arith) in
      let last = refused_end slot errors' mems f.final f.final_room f.behind (ground arith) in
      let rest = Leads-on _ (refused_tick slot errors mems f.first) (Leads-append _ inner last) in
      let quiet = quiet_run slot errors mems f.quiet (ground arith) in
      simp r (Leads-append _ quiet rest)

  pub frame_run :
      (slot errors : ℕ) (mems : Mems) (f : Frame)
      → is_frame big f ≡ true
      → byte_length big f + 4 < 2 ^ 32
      → Led
          (at idle 0 slot errors mems)
          (cycles f)
          (at idle 0
            (frame_slot big slotbits adr_bits slot f)
            (frame_errors big slotbits adr_bits errors f)
            (frame_mems big slotbits adr_bits slot f mems))
          (frame_status big slot f)
  frame_run slot errors mems f h fits = elim (Bool-cases f.room) [
    | inl r ↦ stored_run slot errors mems f h fits r
    | inr r ↦ refused_run slot errors mems f h r
  ]

  -- What a sequence of frames comes to.
  unfoldable pub frames_end : ℕ → ℕ → Mems → List Frame → Writer
  frames_end slot errors mems [] = at idle 0 slot errors mems
  frames_end slot errors mems (f ∷ fs) =
      frames_end (frame_slot big slotbits adr_bits slot f)
        (frame_errors big slotbits adr_bits errors f) (frame_mems big slotbits adr_bits slot f mems)
        fs

  unfoldable pub frames_status : ℕ → List Frame → List Slot
  frames_status slot [] = []
  frames_status slot (f ∷ fs) =
      frame_status big slot f ++ frames_status (frame_slot big slotbits adr_bits slot f) fs

  unfoldable pub all_cycles : List Frame → List Cycle
  all_cycles [] = []
  all_cycles (f ∷ fs) = cycles f ++ all_cycles fs

  abbrev pub AllFrames : List Frame → Type 0
  AllFrames [] = Unit
  AllFrames (f ∷ fs) = (is_frame big f ≡ true) × (byte_length big f + 4 < 2 ^ 32) × AllFrames fs

  frames_run :
      (slot errors : ℕ) (mems : Mems) (fs : List Frame)
      → AllFrames fs
      → Led
          (at idle 0 slot errors mems)
          (all_cycles fs)
          (frames_end slot errors mems fs)
          (frames_status slot fs)
  unfolding frames_end frames_status all_cycles
  frames_run slot errors mems [] h = Leads-nil _ _
  frames_run slot errors mems (f ∷ fs) h =
      let rest =
        frames_run (frame_slot big slotbits adr_bits slot f)
          (frame_errors big slotbits adr_bits errors f)
          (frame_mems big slotbits adr_bits slot f mems) fs h.2 in
      Leads-append _ (frame_run slot errors mems f h.0 h.1) rest

  -- From IDLE with a cleared counter, for frames of two beats or more whose beats before the last
  -- have four bytes, of any length below 2 ^ 32 - 4 bytes, with any wires and room or none on the
  -- one cycle behind each, the writer comes to the slot, the error count and the memories, and
  -- reports the slots and lengths, that the frames come to one by one: a good one is written and
  -- reported, one with an error is written and not reported, and one without room when it begins is
  -- not written, counted as an error and takes a slot, which is reported with length 0; a report is
  -- lost where there is no room on the cycle behind the frame.
  pub write_step-frames :
      (slot errors : ℕ) (mems : Mems) (fs : List Frame)
      → AllFrames fs
      → let step = write_step big slotbits adr_bits in
        (ticks step (at idle 0 slot errors mems) (all_cycles fs) ≡ frames_end slot errors mems fs)
        × (outs step (at idle 0 slot errors mems) (all_cycles fs) ≡ frames_status slot fs)
  write_step-frames slot errors mems fs h =
      let led = frames_run slot errors mems fs h in (led.reaches, led.passes)
