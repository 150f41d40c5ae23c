-- ===== src/Mac/Sram/RoundTrip.antt =====
-- A frame through the writer of liteeth/mac/sram.py, and back through the reader, for the slot and
-- the length that the writer reports and a copy of its memories.
use mathlib.Core.Path.{subst}
use mathlib.Core.List.{append-nil}
use liteeth.Mac.Sram.Writer.Store.{words_of}
use native.Mathlib.Nat.{mod-eq_of_lt}
use liteeth.Prelude.{ℕ, zero, suc, Bool, true, false, ◌+◌, ◌*◌, ◌/◌, ◌%◌, ◌^◌, ◌≤◌, ◌<◌, ◌≡◌}
use liteeth.Prelude.{
  List, [], ◌∷◌, arith, refl, ap, ap₂, sym, ◌∙◌, ◌==◌, if◌then◌else◌, length, length-append, get_or,
  ◌⊎◌,
}
use liteeth.Stream.{Beat, Cycle, willing_count, run}
use liteeth.Machine.{ticks, outs}
use liteeth.Mac.Sram.Writer.Packets.{frame_run}
use liteeth.Mac.Sram.Writer.Frame.{Frame, is_frame, payload, byte_length, cycles}
use liteeth.Mac.Sram.{Slot, Mems, word_adr, write, written}
use liteeth.Mac.Sram.Writer
use liteeth.Mac.Sram.Reader
use liteeth.Mac.Sram.Reader.Send
use liteeth.Mac.Sram.Writer.{idle, write_step, inc, has_error}
use liteeth.Mac.Sram.Reader.{last_be_of, read_step}
use liteeth.Mac.Sram.Reader.Send.{run-read_step, sent, sent_from, words}

-- A write does not show at other addresses, and the words of a slot are read back.
written_before :
    (adr_bits slot k : ℕ) (ws : List ℕ) (mems : Mems) (a : ℕ)
    → a < k
    → k + length ws ≤ 2 ^ adr_bits
    → written adr_bits slot k ws mems slot a ≡ mems slot a
unfolding written
written_before adr_bits slot k [] mems a h fits = refl
written_before adr_bits slot k (w ∷ ws) mems a h fits =
    let e : k % 2 ^ adr_bits ≡ k = mod-eq_of_lt (omega arith) in
    let rest =
      written_before adr_bits slot (k + 1) ws (write slot k w mems) a (omega arith) (omega arith) in
    rw e (rest ∙ ground arith)

written_get :
    (adr_bits slot k : ℕ) (ws : List ℕ) (mems : Mems) (i : ℕ)
    → i < length ws
    → k + length ws ≤ 2 ^ adr_bits
    → written adr_bits slot k ws mems slot (k + i) ≡ get_or ws i 0
unfolding written
written_get adr_bits slot k [] mems i h fits = absurd (omega arith)
written_get adr_bits slot k (w ∷ ws) mems zero h fits =
    let e : k % 2 ^ adr_bits ≡ k = mod-eq_of_lt (omega arith) in
    let e' : k + 0 ≡ k = omega arith in
    rw e (
      rw e' (
        written_before adr_bits slot (k + 1) ws (write slot k w mems) k (omega arith) (omega arith)
        ∙ ground arith))
written_get adr_bits slot k (w ∷ ws) mems (suc i) h fits =
    let e : k + suc i ≡ k + 1 + i = omega arith in
    rw e (written_get adr_bits slot (k + 1) ws _ i (omega arith) (omega arith))

-- The words of a slot as beats: `last` and its mask on the last of them.
abbrev pub beats_of : List ℕ → ℕ → List Beat
beats_of [] last_be = []
beats_of (w ∷ ws) last_be =
    record {
      last = length ws == 0;
      data_word = w;
      last_be = if length ws == 0 then last_be else 0;
      error = 0;
    }
    ∷ beats_of ws last_be

abbrev IsMask : ℕ → Type 0
IsMask m = (m ≡ 1) ⊎ ((m ≡ 2) ⊎ ((m ≡ 4) ⊎ (m ≡ 8)))

mask_back : (big : Bool) (k m : ℕ) → IsMask m → last_be_of big ((4 * k + inc big m) % 4) ≡ m
mask_back true k m h = ground arith
mask_back false k m h = ground arith

words_eq : (big : Bool) (m last_be : ℕ) → words (4 * (1 + m) + inc big last_be) ≡ 2 + m
words_eq true m last_be = ground arith
words_eq false m last_be = ground arith

-- A slot that holds `ws` from the address `k` on is sent as those words.
sent_from-beats_of :
    (big : Bool) (mems : Mems) (lengthbits adr_bits k : ℕ) (ws : List ℕ) (cmd : Slot)
    → ((i : ℕ) → i < length ws → mems cmd.slot (k + i) ≡ get_or ws i 0)
    → k + length ws ≤ 2 ^ adr_bits
    → sent_from big mems lengthbits adr_bits k (length ws) cmd
      ≡ beats_of ws (last_be_of big (cmd.length % 4))
sent_from-beats_of big mems lengthbits adr_bits k [] cmd holds fits = refl
sent_from-beats_of big mems lengthbits adr_bits k (w ∷ ws) cmd holds fits =
    let e : k + 0 ≡ k = omega arith in
    let here : mems cmd.slot k ≡ w = subst (λ a. mems cmd.slot a ≡ w) e (holds 0 (omega arith)) in
    let div : 4 * k / 4 ≡ k = omega arith in
    let adr : word_adr adr_bits (4 * k) ≡ k =
      ap (λ a. a % 2 ^ adr_bits) div ∙ mod-eq_of_lt (omega arith) in
    let shift : (i : ℕ) → k + suc i ≡ k + 1 + i = λ i. omega arith in
    let next : (i : ℕ) → i < length ws → mems cmd.slot (k + 1 + i) ≡ get_or ws i 0 =
      λ i h. subst (λ a. mems cmd.slot a ≡ get_or ws i 0) (shift i) (holds (suc i) (omega arith)) in
    let rest = sent_from-beats_of big mems lengthbits adr_bits (k + 1) ws cmd next (omega arith) in
    rw adr (rw here (rw rest refl))

module _ (big : Bool) (lengthbits adr_bits : ℕ) (k adr : ℕ) (cs : List (Cycle Slot)) where
  -- What the reader sends from the memories `mems` for the commands `cmds`.
  abbrev pub read_from : Mems → List Slot → List Beat
  read_from mems cmds =
      run (read_step big mems lengthbits adr_bits)
        (Send.at big mems lengthbits adr_bits Reader.idle k adr false cmds) cs

  read_frame :
      (slot : ℕ) (mems : Mems) (f : Frame)
      → IsMask f.final.last_be
      → length (payload f) ≤ 2 ^ adr_bits
      → byte_length big f < 2 ^ lengthbits
      → length (payload f) + 2 ≤ willing_count cs
      → read_from
          (written adr_bits slot 0 (payload f) mems)
          (record { slot = slot; length = byte_length big f } ∷ [])
        ≡ beats_of (payload f) f.final.last_be
  read_frame slot mems f mask fits short enough =
      let M = written adr_bits slot 0 (payload f) mems in
      let cmd : Slot = record { slot = slot; length = byte_length big f } in
      let len : length (payload f) ≡ 2 + length (words_of f.inner) =
        omega (arith, length-append (words_of f.inner) (f.final.data_word ∷ [])) in
      let n : words (byte_length big f) ≡ length (payload f) =
        words_eq big (length (words_of f.inner)) f.final.last_be ∙ sym len in
      let get : (i : ℕ) → i < length (payload f) → M slot (0 + i) ≡ get_or (payload f) i 0 =
        λ i h. written_get adr_bits slot 0 (payload f) mems i h (omega arith) in
      let back = mask_back big (1 + length (words_of f.inner)) f.final.last_be mask in
      let sends : sent big M lengthbits adr_bits cmd ≡ beats_of (payload f) f.final.last_be =
        ap (λ m. sent_from big M lengthbits adr_bits 0 m cmd) n
        ∙ sent_from-beats_of big M lengthbits adr_bits 0 (payload f) cmd get (omega arith)
        ∙ ap (λ m. beats_of (payload f) m) back in
      run-read_step big M lengthbits adr_bits k adr (cmd ∷ []) cs (omega arith, short, tt)
        (omega arith)
      ∙ append-nil _
      ∙ sends

  -- In either byte order, a frame of two beats or more without an error, for which there is room in
  -- the status FIFO when it begins and on the cycle behind it, with no more words than a slot and
  -- its length within the registers, comes back word for word, with `last` and its mask on the last
  -- beat, when the reader gets the slot and the length that the writer reports and the memories as
  -- the writer leaves them, whatever the stalls, when there are enough willing cycles.
  pub read_from-write_step :
      (slotbits slot errors : ℕ) (mems : Mems) (f : Frame)
      → is_frame big f ≡ true
      → f.room ≡ true
      → f.behind.room ≡ true
      → has_error f.final ≡ false
      → IsMask f.final.last_be
      → length (payload f) ≤ 2 ^ adr_bits
      → byte_length big f + 4 < 2 ^ 32
      → byte_length big f < 2 ^ lengthbits
      → length (payload f) + 2 ≤ willing_count cs
      → let step = write_step big slotbits adr_bits in
        let w = Writer.at idle 0 slot errors mems in
        read_from (ticks step w (cycles f)).mems (outs step w (cycles f))
        ≡ beats_of (payload f) f.final.last_be
  read_from-write_step slotbits slot errors mems f h room still good mask fits below short enough =
      let step = write_step big slotbits adr_bits in
      let w = Writer.at idle 0 slot errors mems in
      let M = written adr_bits slot 0 (payload f) mems in
      let cmd : Slot = record { slot = slot; length = byte_length big f } in
      let led = frame_run big slotbits adr_bits slot errors mems f h below in
      let stored : (ticks step w (cycles f)).mems ≡ M =
        ap (λ v. v.mems) led.reaches ∙ simp room refl in
      let reported : outs step w (cycles f) ≡ cmd ∷ [] =
        led.passes ∙ simp (room, still, good) refl in
      ap₂ read_from stored reported ∙ read_frame slot mems f mask fits short enough
