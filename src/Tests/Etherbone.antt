-- ===== src/Tests/Etherbone.antt =====
-- liteeth/frontend/etherbone.py on concrete records, with a memory of 256 words behind the bus.
use liteeth.Prelude.{
  ℕ, Bool, true, false, ◌≡◌, ◌==◌, ◌+◌, if◌then◌else◌, refl, arith, List, [], ◌∷◌,
}
use liteeth.Prelude.{replicate}
use liteeth.Stream.{Drive, willing_count, run}
use liteeth.Machine.{Leads}
use liteeth.Machine.Promise.{helps}
use liteeth.Frontend.Etherbone.{Mmap, RecordBeat}
use liteeth.Frontend.Etherbone.Receiver
use liteeth.Frontend.Etherbone.Receiver.{no_beat, receive_step}
use liteeth.Frontend.Etherbone.Receiver.Decode
use liteeth.Frontend.Etherbone.Receiver.Requests.{Request, writes, reads, word_with, words_with}
use liteeth.Frontend.Etherbone.Receiver.Requests.{all_beats, write_op, read_op}
use liteeth.Frontend.Etherbone.Receiver.Mixed.{mixed, run-mixed}
use liteeth.Frontend.Etherbone.Master.{Bus, BusCycle}
use liteeth.Frontend.Etherbone.Sender
use liteeth.Frontend.Etherbone.RoundTrip.{answered, answered-all_beats}
use liteeth.Frontend.Etherbone.Replies.{apply_all}
use liteeth.Frontend.Etherbone.Slave
use liteeth.Frontend.Etherbone.Slave.{
  slave_step, BusRequest, read_request, read_cycles, sends, acks,
}
use liteeth.Frontend.Etherbone.Remote.{Schedules, remote, slave_step-remote}
use liteeth.Frontend.Etherbone.Packet.{PacketBeat}
use liteeth.Frontend.Etherbone.Packet.Probe.{probed, routed, probed-response}
use liteeth.Tests.Data.{stalling}

-- Word `a` of the memory is `a + 100` until it is written.
abbrev ram : Bus
ram = record {
  Memory = ℕ → ℕ;
  write = λ adr word sel mem a. if a == adr then word else mem a;
  read = λ adr sel mem. mem adr;
}

abbrev initial : ℕ → ℕ
initial a = a + 100

abbrev no_record : RecordBeat
no_record = word_with false 0 0 0 0

abbrev bus_cycle : Bool → BusCycle ram
bus_cycle ack = record { cycle = record { offer = true; ready = true; rest = no_beat }; ack = ack }

-- The slave takes a cycle to answer.
abbrev slow_bus : List (BusCycle ram)
slow_bus = bus_cycle false ∷ (bus_cycle true ∷ (bus_cycle false ∷ replicate 9 (bus_cycle true)))

abbrev sender_cycle : Bool → Sender.Inputs
sender_cycle ready = record { ready = ready; stale = no_beat }

abbrev requests : List Request
requests = writes 15 0x40 (7 ∷ []) ∷ (reads 15 0x1000 (0x40 ∷ (0x44 ∷ [])) ∷ [])

answered-all_beats_example :
    answered ram initial
      (stalling no_record 10)
      slow_bus
      (sender_cycle false ∷ replicate 6 (sender_cycle true))
      (all_beats requests)
    ≡ (words_with 2 0 0 (0x1000 ∷ (7 ∷ (117 ∷ []))), apply_all ram requests initial)
unfolding willing_count helps
answered-all_beats_example =
    answered-all_beats ram initial requests (stalling no_record 10) slow_bus
      (sender_cycle false ∷ replicate 6 (sender_cycle true))
      ((omega arith, omega arith), ((omega arith, omega arith), tt)) (omega arith) (omega arith)
      (omega arith)

-- One write and reads of two addresses: the bus is asked for the words at 0x1000 and at 0x40.
run-mixed_example :
    run receive_step
      (Decode.at Receiver.idle 0 0 false (mixed 15 0x40 (7 ∷ []) 0x1000 (0x40 ∷ []) 0x44))
      (stalling no_record 10)
    ≡ write_op true 1 15 16 7 ∷ (read_op false 2 0x1000 0x400 ∷ (read_op true 2 0x1000 0x10 ∷ []))
unfolding willing_count
run-mixed_example =
    run-mixed 0 0 15 0x40 7 [] 0x1000 (0x40 ∷ []) 0x44 (stalling no_record 10) (omega arith)
      (omega arith) (omega arith)

abbrev schedules : Schedules ram
schedules = record {
  requests = replicate 3 (sender_cycle true);
  received = stalling no_record 4;
  operations = slow_bus;
  replies = replicate 3 (sender_cycle true);
  answers = stalling no_record 4;
}

abbrev nothing : Drive Mmap
nothing = record { valid = false; beat = no_beat }

abbrev read_of : ℕ → BusRequest
read_of adr = record { we = false; adr = adr; dat_w = 0; sel = 15 }

slave_step-remote_example :
    (x : Mmap) × (remote ram schedules initial (read_request (read_of 5)) ≡ (x ∷ [], initial))
    × Leads slave_step Slave.idle
        (read_cycles
          (read_of 5)
          nothing
          false
          (nothing ∷ [])
          nothing
          ((nothing, false) ∷ [])
          x
          false)
        Slave.idle
        (sends (read_request (read_of 5)) ∷ (acks 105 ∷ []))
unfolding willing_count helps
slave_step-remote_example =
    slave_step-remote ram schedules initial (read_of 5) nothing false (nothing ∷ []) nothing
      ((nothing, false) ∷ []) false
      (record {
        requests_pass = omega arith;
        received_pass = omega arith;
        operations_pass = omega arith;
        replies_pass = omega arith;
        answers_pass = omega arith;
      })
      refl refl

abbrev packet_beat : Bool → ℕ → ℕ → Bool → Bool → PacketBeat
packet_beat last word magic pf pr = record {
  last = last;
  data_word = word;
  magic = magic;
  version = 1;
  addr_size = 4;
  port_size = 4;
  pf = pf;
  pr = pr;
  nr = false;
}

-- A probe, a packet of records, and a packet of two beats that is not Etherbone.
abbrev packets : List PacketBeat
packets =
    packet_beat true 1 0x4e6f true false
    ∷ packet_beat true 4 0x4e6f false false
    ∷ (packet_beat false 2 0x4e6e true false ∷ (packet_beat true 3 0x4e6e true false ∷ []))

abbrev dispatched : (PacketBeat → ℕ) → List PacketBeat → List PacketBeat
dispatched selects ys = routed selects true false ys

probed-response_example :
    probed dispatched
      (stalling (packet_beat false 0 0 false false) 8)
      (stalling (packet_beat false 0 0 false false) 2)
      (stalling (packet_beat false 0 0 false false) 2)
      packets
    ≡ packet_beat true 1 0x4e6f false true ∷ []
unfolding willing_count
probed-response_example =
    probed-response dispatched packets (stalling (packet_beat false 0 0 false false) 8)
      (stalling (packet_beat false 0 0 false false) 2)
      (stalling (packet_beat false 0 0 false false) 2) (λ selects ys. refl) (omega arith)
      (omega arith) (omega arith)
