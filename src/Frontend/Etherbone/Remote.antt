-- ===== src/Frontend/Etherbone/Remote.antt =====
-- A bus at one end of liteeth/frontend/etherbone.py and a memory at the other: the slave's request
-- goes through a sender, the three stages of the remote side answer it, and a receiver gives the
-- answer back.
use liteeth.Prelude.{
  ℕ, Bool, true, false, ◌+◌, ◌*◌, ◌/◌, ◌≤◌, ◌≡◌, refl, ap, ap₂, ◌∙◌, List, [], ◌∷◌,
}
use liteeth.Prelude.{arith}
use liteeth.Stream.{Cycle, Drive, willing_count, run}
use liteeth.Machine.{outs, Leads}
use liteeth.Machine.Promise.{helps}
use liteeth.Frontend.Etherbone.{Mmap, RecordBeat, word_of}
use liteeth.Frontend.Etherbone.Receiver
use liteeth.Frontend.Etherbone.Receiver.Decode
use liteeth.Frontend.Etherbone.Receiver.{receive_step}
use liteeth.Frontend.Etherbone.Receiver.Requests.{writes, reads, write_op, all_beats}
use liteeth.Frontend.Etherbone.Receiver.Requests.{run-receive_step}
use liteeth.Frontend.Etherbone.Master.{Bus, BusCycle}
use liteeth.Frontend.Etherbone.Master.Serve
use liteeth.Frontend.Etherbone.Sender
use liteeth.Frontend.Etherbone.Sender.{Inputs, sender_step}
use liteeth.Frontend.Etherbone.Sender.Answers
use liteeth.Frontend.Etherbone.Sender.Answers.{sender_at, sender_step-sent}
use liteeth.Frontend.Etherbone.Slave
use liteeth.Frontend.Etherbone.Slave.{
  slave_step, slave_step-read, read_cycles, no_answers, sends, acks,
}
use liteeth.Frontend.Etherbone.Slave.{BusRequest, read_request, write_request}
use liteeth.Frontend.Etherbone.RoundTrip.{answered, answered-all_beats}
use liteeth.Frontend.Etherbone.Replies.{all_responses}

adr_back : (adr : ℕ) → adr * 4 / 4 ≡ adr
adr_back adr = omega arith

module _ (bus : Bus) where
  open bus use {Memory, write, read}

  -- The schedules of the five stages.
  pub record Schedules : Type 0 where
    pub requests : List Inputs
    pub received : List (Cycle RecordBeat)
    pub operations : List (BusCycle bus)
    pub replies : List Inputs
    pub answers : List (Cycle RecordBeat)

  pub record Enough (s : Schedules) : Type 0 where
    pub requests_pass : 3 ≤ helps Answers.helpful s.requests
    pub received_pass : 4 ≤ willing_count s.received
    pub operations_pass : 3 ≤ helps (Serve.helpful bus) s.operations
    pub replies_pass : 3 ≤ helps Answers.helpful s.replies
    pub answers_pass : 4 ≤ willing_count s.answers

  -- What comes to the slave's sink for beats of the other side, and for a beat of its source.
  abbrev returned : Schedules → List RecordBeat × Memory → List Mmap × Memory
  returned s (response, mem) =
      (run receive_step (Decode.at Receiver.idle 0 0 false response) s.answers, mem)

  abbrev reached : Schedules → Memory → List RecordBeat → List Mmap × Memory
  reached s mem asked = returned s (answered bus mem s.received s.operations s.replies asked)

  abbrev pub remote : Schedules → Memory → Mmap → List Mmap × Memory
  remote s mem x = reached s mem (outs sender_step (sender_at Sender.idle (x ∷ [])) s.requests)

  remote_read :
      (s : Schedules) (mem : Memory) (r : BusRequest)
      → Enough s
      → remote s mem (read_request r) ≡ (write_op true 1 0 0 (read r.adr 0 mem) ∷ [], mem)
  remote_read s mem r e =
      let rq = reads r.sel 0 (r.adr * 4 ∷ []) ∷ [] in
      let word = read (word_of (r.adr * 4)) 0 mem in
      let asked : outs sender_step (sender_at Sender.idle (read_request r ∷ [])) s.requests
          ≡ all_beats rq =
        sender_step-sent (read_request r ∷ []) s.requests refl e.requests_pass in
      let answer =
        answered-all_beats bus mem rq s.received s.operations s.replies
          ((omega arith, omega arith), tt) e.received_pass e.operations_pass e.replies_pass in
      let back : run receive_step (Decode.at Receiver.idle 0 0 false (all_responses bus mem rq))
            s.answers
          ≡ write_op true 1 0 0 word ∷ [] =
        run-receive_step 0 0 (writes 0 0 (word ∷ []) ∷ []) s.answers
          ((omega arith, omega arith), tt) e.answers_pass in
      ap (reached s mem) asked
      ∙ ap (returned s) answer
      ∙ ap (λ t. (t, mem))
          (back ∙ ap (λ a. write_op true 1 0 0 (read a 0 mem) ∷ []) (adr_back r.adr))

  remote_write :
      (s : Schedules) (mem : Memory) (r : BusRequest)
      → Enough s
      → remote s mem (write_request r) ≡ ([], write r.adr r.dat_w r.sel mem)
  remote_write s mem r e =
      let rq = writes r.sel (r.adr * 4) (r.dat_w ∷ []) ∷ [] in
      let asked : outs sender_step (sender_at Sender.idle (write_request r ∷ [])) s.requests
          ≡ all_beats rq =
        sender_step-sent (write_request r ∷ []) s.requests refl e.requests_pass in
      let answer =
        answered-all_beats bus mem rq s.received s.operations s.replies
          ((omega arith, omega arith), tt) e.received_pass e.operations_pass (omega arith) in
      let adr : r.adr * 4 / 4 + 0 ≡ r.adr = omega arith in
      ap (reached s mem) asked
      ∙ ap (returned s) answer
      ∙ ap₂ (λ t a. (t, write a r.dat_w r.sel mem))
          (run-receive_step 0 0 [] s.answers tt (omega arith)) adr

  -- When a read on the bus of the slave is sent, and a remote side answers it from its memory under
  -- any schedule with enough willing cycles, exactly one beat comes back and the memory stays; the
  -- slave that gets this beat, after any stalls of its source and any cycles without an answer, has
  -- sent one request and acknowledges the bus once, with the word that the remote slave gives for
  -- the address with `sel` 0, whatever the request's.
  pub slave_step-remote :
      (s : Schedules) (mem : Memory) (r : BusRequest) (d : Drive Mmap) (ready : Bool)
      (stalls : List (Drive Mmap)) (d' : Drive Mmap) (waits : List (Drive Mmap × Bool))
      (ready' : Bool)
      → Enough s
      → r.we ≡ false
      → no_answers waits ≡ true
      → (x : Mmap) × (remote s mem (read_request r) ≡ (x ∷ [], mem))
        × Leads slave_step Slave.idle
            (read_cycles r d ready stalls d' waits x ready')
            Slave.idle
            (sends (read_request r) ∷ (acks (read r.adr 0 mem) ∷ []))
  slave_step-remote s mem r d ready stalls d' waits ready' e is_read none =
      let x = write_op true 1 0 0 (read r.adr 0 mem) in
      (
        x,
        remote_read s mem r e,
        slave_step-read r d ready stalls d' waits x ready' is_read none refl,
      )
