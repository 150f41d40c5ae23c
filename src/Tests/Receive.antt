-- ===== src/Tests/Receive.antt =====
-- The receiving side, and the way from packets to packets, with the list for a FIFO.
use liteeth.Prelude.{
  ℕ, zero, suc, true, false, ◌≡◌, refl, arith, List, [], ◌∷◌, ◌++◌, map, replicate,
}
use liteeth.Stream.{Beat, line, run, run_end, willing_count}
use liteeth.Stream.Fifo.{list_fifo, list_fifo_laws}
use liteeth.Stream.Packets.{concat}
use liteeth.Mac.Preamble.{hunt}
use liteeth.Mac.Padding.Packets.{pad}
use liteeth.Mac.Crc.Crc32.{init}
use liteeth.Mac.Crc.Checker.{CrcChecker, reset, idle, copy, check_step}
use liteeth.Mac.Crc.Checker.Lost.{willing_cycle, lost_after_last}
use liteeth.Mac.Receive.{receive_step}
use liteeth.Mac.Receive.Body.{unflagged}
use liteeth.Mac.Receive.Frame.{Frame, IsFrame}
use liteeth.Mac.Receive.Packets.{wire, judged}
use liteeth.Mac.Receive.Buffered.{AllReady, empty, run-receive_step}
use liteeth.Stream.Buffer.{one_beat, one_beat_laws}
use liteeth.Stream.{Cycle}
use liteeth.Mac.Receive.Good.{ok}
use liteeth.Mac.RoundTrip.{transmitted, receive-transmitted}
use liteeth.Tests.Data.{beat, two_packets, schedule}

abbrev checker : CrcChecker (List Beat)
checker = record { fsm = copy; reg = replicate 32 false; fifo = replicate 4 (beat false 7) }

-- A frame whose trailer is not its CRC.
abbrev wrong : Frame
wrong = record { packet = beat false 1 ∷ beat true 2 ∷ []; words = 0 ∷ 0 ∷ 0 ∷ []; final = 0 }

wrong-IsFrame : IsFrame wrong
wrong-IsFrame = ((refl, refl), refl, (omega arith, (omega arith, (omega arith, tt))), omega arith)

-- Each beat comes after a cycle without one; the downstream is ready.
abbrev quiet : Cycle Beat
quiet = record { offer = false; ready = true; rest = beat true 9 }

abbrev offering : ℕ → List (Cycle Beat)
offering zero = []
offering (suc n) = quiet ∷ record quiet { offer = true } ∷ offering n

offering-AllReady : (n : ℕ) → AllReady (offering n)
offering-AllReady zero = tt
offering-AllReady (suc n) = (refl, (refl, offering-AllReady n))

run-receive_step_example :
    map unflagged (
      run
        (receive_step one_beat (list_fifo 5 (beat false 0)))
        (line
          (hunt, (empty, record checker { fsm = reset }))
          (concat (map wire (wrong ∷ wrong ∷ []))))
        (offering 28 ++ (quiet ∷ [])))
    ≡ concat (map judged (wrong ∷ wrong ∷ []))
unfolding willing_count
run-receive_step_example =
    run-receive_step one_beat one_beat_laws (list_fifo 5 (beat false 0))
      (list_fifo_laws 5 (beat false 0)) empty checker (wrong ∷ wrong ∷ []) (offering 28) quiet refl
      (omega arith) (wrong-IsFrame, (wrong-IsFrame, tt)) (offering-AllReady 28) refl (omega arith)

receive-transmitted_example :
    map unflagged (
      run
        (receive_step one_beat (list_fifo 5 (beat false 0)))
        (line
          (hunt, (empty, record checker { fsm = reset }))
          (transmitted 3 two_packets (schedule 8) (schedule 18) (schedule 34) (schedule 56)))
        (offering 32 ++ (quiet ∷ [])))
    ≡ concat (map (map ok) (map (pad 4) two_packets))
unfolding willing_count
receive-transmitted_example =
    receive-transmitted 3 (omega arith) two_packets ((refl, refl), (refl, tt))
      (omega arith, (omega arith, tt)) (schedule 8) (schedule 18) (schedule 34) (schedule 56)
      one_beat one_beat_laws (list_fifo 5 (beat false 0)) (list_fifo_laws 5 (beat false 0)) empty
      checker (offering 32) quiet refl (offering-AllReady 32) refl (omega arith) (omega arith)
      (omega arith) (omega arith) (omega arith) (omega arith)

lost_after_last_example :
    let end =
      run_end
        (check_step 8 (list_fifo 5 (beat false 0)))
        (line checker (beat true 9 ∷ beat false 5 ∷ []))
        (willing_cycle (beat false 0) ∷ willing_cycle (beat false 0) ∷ []) in
    (end.left ≡ []) × (end.regs.fsm ≡ idle) × (end.regs.reg ≡ init) × (end.regs.fifo ≡ [])
lost_after_last_example =
    lost_after_last (list_fifo 5 (beat false 0)) (list_fifo_laws 5 (beat false 0)) checker
      (beat true 9) (beat false 5) (beat false 0) refl
