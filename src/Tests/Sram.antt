-- ===== src/Tests/Sram.antt =====
-- The memories of liteeth/mac/sram.py on a concrete frame.
use liteeth.Prelude.{ℕ, Bool, true, false, ◌≡◌, refl, arith, List, [], ◌∷◌, inl, inr}
use liteeth.Stream.{Beat, willing_count}
use liteeth.Machine.{ticks, outs}
use liteeth.Mac.Sram.Writer.Packets.{all_cycles, frames_end, frames_status, write_step-frames}
use liteeth.Mac.Sram.Writer.Frame.{Frame, cycles}
use liteeth.Mac.Sram.{Slot, Mems}
use liteeth.Mac.Sram.Writer
use liteeth.Mac.Sram.Writer.{Cycle, write_step}
use liteeth.Mac.Sram.Writer.Bounds.{write_step-counted, ended, refused}
use liteeth.Mac.Sram.RoundTrip.{read_from, read_from-write_step}
use liteeth.Tests.Data.{beat, stalling}

abbrev masked : Bool → ℕ → ℕ → ℕ → Beat
masked last word mask error = record {
  last = last;
  data_word = word;
  last_be = mask;
  error = error;
}

abbrev quiet : Cycle
quiet = record { sink = record { valid = false; beat = beat true 9 }; room = false }

abbrev taken : Beat → Cycle
taken x = record { sink = record { valid = true; beat = x }; room = false }

-- Ten bytes, with a cycle without a beat in between; the mask of the last is for little endian.
abbrev frame : Bool → ℕ → Frame
frame room error = record {
  quiet = quiet ∷ [];
  first = masked false 11 0 0;
  room = room;
  inner = quiet ∷ (taken (masked false 22 0 0) ∷ []);
  final = masked true 33 2 error;
  final_room = false;
  behind = record quiet { room = true };
}

abbrev no_mems : Mems
no_mems s a = 0

abbrev slot_of : ℕ → ℕ → Slot
slot_of slot length = record { slot = slot; length = length }

read_from-write_step_example :
    let w = Writer.at Writer.idle 0 1 0 no_mems in
    let step = write_step false 1 9 in
    read_from false 11 9 0 0
      (stalling (slot_of 0 0) 5)
      (ticks step w (cycles (frame true 0))).mems
      (outs step w (cycles (frame true 0)))
    ≡ masked false 11 0 0 ∷ (masked false 22 0 0 ∷ (masked true 33 2 0 ∷ []))
unfolding willing_count
read_from-write_step_example =
    read_from-write_step false 11 9 0 0 (stalling (slot_of 0 0) 5) 1 1 0 no_mems (frame true 0) refl
      refl refl refl (inr (inl refl)) (omega arith) (omega arith) (omega arith) (omega arith)

-- A good frame, one with an error, one for which there is no room, and a good one.
abbrev frames : List Frame
frames = frame true 0 ∷ (frame true 3 ∷ (frame false 0 ∷ (frame true 0 ∷ [])))

write_step-frames_example :
    let step = write_step false 1 9 in
    let w = Writer.at Writer.idle 0 0 0 no_mems in
    (ticks step w (all_cycles false 1 9 frames) ≡ frames_end false 1 9 0 0 no_mems frames)
    × (outs step w (all_cycles false 1 9 frames)
        ≡ slot_of 0 10 ∷ (slot_of 1 0 ∷ (slot_of 0 10 ∷ [])))
unfolding frames_status
write_step-frames_example =
    write_step-frames false 1 9 0 0 no_mems frames
      ((refl, omega arith, (refl, omega arith, (refl, omega arith, (refl, omega arith, tt)))))

write_step-counted_example :
    let w = Writer.at Writer.idle 0 1 0 no_mems in
    let end = ticks (write_step false 1 9) w (all_cycles false 1 9 frames) in
    (end.slot ≡ 0) × (end.errors ≡ 1) × (end.counter ≡ 0)
unfolding ended refused ticks all_cycles write_step
write_step-counted_example =
    write_step-counted false 1 9 (Writer.at Writer.idle 0 1 0 no_mems) (all_cycles false 1 9 frames)
      (omega arith) (omega arith) refl
