-- ===== src/Frontend/Etherbone/RoundTrip.antt =====
-- Requests through the receiver, the Wishbone master and the sender of
-- liteeth/frontend/etherbone.py, each with what the one before it has sent.
use liteeth.Prelude.{false, ◌*◌, ◌≤◌, ◌≡◌, ap, ap₂, ◌∙◌}
use liteeth.Prelude.{List, length}
use liteeth.Stream.{Cycle, willing_count, run}
use liteeth.Machine.{ticks, outs}
use liteeth.Machine.Promise.{helps}
use liteeth.Frontend.Etherbone.{Mmap, RecordBeat}
use liteeth.Frontend.Etherbone.Receiver
use liteeth.Frontend.Etherbone.Receiver.Decode
use liteeth.Frontend.Etherbone.Receiver.Requests.{Request}
use liteeth.Frontend.Etherbone.Receiver.Requests.{all_beats, all_operations, AllRequests}
use liteeth.Frontend.Etherbone.Receiver.Requests.{run-receive_step}
use liteeth.Frontend.Etherbone.Receiver.{receive_step}
use liteeth.Frontend.Etherbone.Master
use liteeth.Frontend.Etherbone.Master.{Bus, BusCycle, serve_step}
use liteeth.Frontend.Etherbone.Master.Serve.{serve_step-answers, line_at}
use liteeth.Frontend.Etherbone.Sender
use liteeth.Frontend.Etherbone.Sender.{Inputs, sender_step}
use liteeth.Frontend.Etherbone.Sender.Answers.{sent, IsWhole, sender_at, sender_step-sent}
use liteeth.Frontend.Etherbone.Master.Serve
use liteeth.Frontend.Etherbone.Sender.Answers
use liteeth.Frontend.Etherbone.Replies.{
  all_responses, apply_all, all_replies, requests_done, replies-IsWhole, replies_sent,
}

-- The registers of the master after reset.
abbrev pub reset : Master.Master
reset = record { fsm = Master.idle; base_addr = 0; addr = 0; count = 0; be = 0; data_word = 0 }

module _ (bus : Bus) where
  open bus use {Memory}

  -- What the master and the sender make of operations, and what all three stages make of a record:
  -- the sender's beats, and the memory behind the bus.
  abbrev pub served :
      Memory → List (BusCycle bus) → List Inputs → List Mmap → List RecordBeat × Memory
  served mem bs is ops =
      let l = line_at bus Master.idle reset mem false ops in
      (
        outs sender_step (sender_at Sender.idle (outs (serve_step bus) l bs)) is,
        (ticks (serve_step bus) l bs).regs.1,
      )

  abbrev pub answered :
      Memory
      → List (Cycle RecordBeat)
      → List (BusCycle bus)
      → List Inputs
      → List RecordBeat
      → List RecordBeat × Memory
  answered mem cs bs is xs =
      served mem bs is (run receive_step (Decode.at Receiver.idle 0 0 false xs) cs)

  served_all :
      (mem : Memory) (rs : List Request) (bs : List (BusCycle bus)) (is : List Inputs)
      → AllRequests rs
      → 3 * length (all_operations rs) ≤ helps (Serve.helpful bus) bs
      → 3 * length (all_replies bus mem rs) ≤ helps Answers.helpful is
      → served mem bs is (all_operations rs) ≡ (all_responses bus mem rs, apply_all bus rs mem)
  served_all mem rs bs is h enough enough' =
      let done = serve_step-answers bus reset mem (all_operations rs) bs enough in
      let asked = requests_done bus rs mem h in
      let sends : outs sender_step (sender_at Sender.idle (all_replies bus mem rs)) is
          ≡ all_responses bus mem rs =
        sender_step-sent (all_replies bus mem rs) is (replies-IsWhole bus rs mem) enough'
        ∙ replies_sent bus rs mem h in
      ap₂ (λ a m. (outs sender_step (sender_at Sender.idle a) is, m)) (done.0 ∙ asked.0)
        (done.1 ∙ asked.1)
      ∙ ap (λ t. (t, apply_all bus rs mem)) sends

  -- For records that either write or read one to 255 words, with any Wishbone slave behind the bus,
  -- the receiver, the Wishbone master and the sender, each given what the one before it has sent,
  -- answer each record of reads with a record of writes to its return address that has the words
  -- that the slave gives for the addresses with `sel` 0, in order, and leave the memory as the
  -- writes leave it, whatever the stalls and the slave's delays, when there are enough cycles on
  -- which all sides are willing.
  pub answered-all_beats :
      (mem : Memory) (rs : List Request) (cs : List (Cycle RecordBeat)) (bs : List (BusCycle bus))
      (is : List Inputs)
      → AllRequests rs
      → 2 * length (all_beats rs) ≤ willing_count cs
      → 3 * length (all_operations rs) ≤ helps (Serve.helpful bus) bs
      → 3 * length (all_replies bus mem rs) ≤ helps Answers.helpful is
      → answered mem cs bs is (all_beats rs) ≡ (all_responses bus mem rs, apply_all bus rs mem)
  answered-all_beats mem rs cs bs is h enough enough' enough'' =
      ap (served mem bs is) (run-receive_step 0 0 rs cs h enough)
      ∙ served_all mem rs bs is h enough' enough''
