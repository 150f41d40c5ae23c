-- ===== src/Mac/Sram/Writer/Frame.antt =====
-- A frame as it comes to the writer of liteeth/mac/sram.py, and what becomes of it.
use liteeth.Prelude.{ℕ, Bool, true, ◌+◌, ◌*◌, ◌%◌, ◌^◌, ◌&&◌, ◌||◌, not}
use liteeth.Prelude.{List, [], ◌∷◌, ◌++◌, length, ◌==◌, if◌then◌else◌}
use liteeth.Stream.{Beat}
use liteeth.Mac.Sram.{Slot, Mems, written}
use liteeth.Mac.Sram.Writer.{Cycle, inc, has_error}
use liteeth.Mac.Sram.Writer.Store.{all_inner, words_of}

-- A frame of two beats or more as it comes: cycles without a beat, the first beat, the cycles that
-- follow, the last beat, and the cycle behind it.
pub record Frame : Type 0 where
  pub quiet : List Cycle
  pub first : Beat
  pub room : Bool
  pub inner : List Cycle
  pub final : Beat
  pub final_room : Bool
  pub behind : Cycle

abbrev pub with_beat : Beat → Bool → Cycle
with_beat x room = record { sink = record { valid = true; beat = x }; room = room }

abbrev pub cycles : Frame → List Cycle
cycles f =
    f.quiet
    ++ (with_beat f.first f.room ∷ (f.inner ++ (with_beat f.final f.final_room ∷ (f.behind ∷ []))))

abbrev pub all_quiet : List Cycle → Bool
all_quiet [] = true
all_quiet (c ∷ cs) = not c.sink.valid && all_quiet cs

abbrev pub is_frame : Bool → Frame → Bool
is_frame big f =
    all_quiet f.quiet && (inc big f.first.last_be == 4 && (all_inner big f.inner && f.final.last))

-- The words of a frame, and its number of bytes.
abbrev pub payload : Frame → List ℕ
payload f = f.first.data_word ∷ (words_of f.inner ++ (f.final.data_word ∷ []))

abbrev pub byte_length : Bool → Frame → ℕ
byte_length big f = 4 * (1 + length (words_of f.inner)) + inc big f.final.last_be

-- What becomes of a frame, and of the registers.
abbrev pub frame_status : Bool → ℕ → Frame → List Slot
frame_status big slot f =
    if f.room && has_error f.final || not f.behind.room
    then []
    else record { slot = slot; length = if f.room then byte_length big f else 0 } ∷ []

module _ (big : Bool) (slotbits adr_bits : ℕ) where
  abbrev pub frame_slot : ℕ → Frame → ℕ
  frame_slot slot f = if f.room && has_error f.final then slot else (slot + 1) % 2 ^ slotbits

  abbrev pub frame_errors : ℕ → Frame → ℕ
  frame_errors errors f = if f.room then errors else (errors + 1) % 2 ^ 32

  abbrev pub frame_mems : ℕ → Frame → Mems → Mems
  frame_mems slot f mems = if f.room then written adr_bits slot 0 (payload f) mems else mems
