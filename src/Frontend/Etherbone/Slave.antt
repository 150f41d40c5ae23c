-- ===== src/Frontend/Etherbone/Slave.antt =====
-- liteeth/frontend/etherbone.py: `LiteEthEtherboneWishboneSlave`.
use liteeth.Prelude.{
  ℕ, Bool, true, false, ◌*◌, ◌&&◌, not, ◌≡◌, refl, if◌then◌else◌, List, [], ◌∷◌, ◌++◌,
}
use liteeth.Prelude.{arith}
use liteeth.Stream.{Drive}
use liteeth.Machine.{Leads, Leads-nil, Leads-on, Leads-append}
use liteeth.Frontend.Etherbone.{Mmap}

pub data State : Type 0 where
  idle send_write send_read wait_read : State

-- What the bus's master drives.
pub record BusRequest : Type 0 where
  pub we : Bool
  pub adr : ℕ
  pub dat_w : ℕ
  pub sel : ℕ

-- A cycle: the bus, with `stb & cyc`, `source.ready` and the sink's wires.
pub record Inputs : Type 0 where
  pub strobe : Bool
  pub request : BusRequest
  pub ready : Bool
  pub sink : Drive Mmap

-- What happens on a cycle: a beat passes the source, or the bus gets its `ack`, with `dat_r`.
pub data Event : Type 0 where
  sends : (beat : Mmap) → Event
  acks : (dat_r : ℕ) → Event

abbrev pub write_request : BusRequest → Mmap
write_request r = record {
  last = true;
  we = true;
  count = 1;
  base_addr = r.adr * 4;
  be = r.sel;
  addr = 0;
  data_word = r.dat_w;
}

abbrev pub read_request : BusRequest → Mmap
read_request r = record {
  last = true;
  we = false;
  count = 1;
  base_addr = 0;
  be = r.sel;
  addr = 0;
  data_word = r.adr * 4;
}

unfoldable pub slave_step : State → Inputs → State × List Event
slave_step idle i =
    (if i.strobe then (if i.request.we then send_write else send_read) else idle, [])
slave_step send_write i = (
  if i.ready then idle else send_write,
  if i.ready then sends (write_request i.request) ∷ (acks 0 ∷ []) else [],
)
slave_step send_read i = (
  if i.ready then wait_read else send_read,
  if i.ready then sends (read_request i.request) ∷ [] else [],
)
slave_step wait_read i = (
  if i.sink.valid && i.sink.beat.we then idle else wait_read,
  if i.sink.valid && i.sink.beat.we then acks i.sink.beat.data_word ∷ [] else [],
)

-- `sink.ready`
abbrev pub sink_ready : State → Bool
sink_ready idle = true
sink_ready wait_read = true
sink_ready _ = false

-- The bus's master holds its request, the source is stalled, and no answer comes.
abbrev pub asking : BusRequest → Bool → Drive Mmap → Inputs
asking r ready sink = record { strobe = true; request = r; ready = ready; sink = sink }

abbrev pub stalled : BusRequest → List (Drive Mmap) → List Inputs
stalled r [] = []
stalled r (d ∷ ds) = asking r false d ∷ stalled r ds

abbrev pub no_answer : Drive Mmap → Bool
no_answer d = not (d.valid && d.beat.we)

abbrev pub waited : BusRequest → List (Drive Mmap × Bool) → List Inputs
waited r [] = []
waited r (d ∷ ds) = asking r d.1 d.0 ∷ waited r ds

abbrev pub no_answers : List (Drive Mmap × Bool) → Bool
no_answers [] = true
no_answers (d ∷ ds) = no_answer d.0 && no_answers ds

write_stalls :
    (r : BusRequest) (ds : List (Drive Mmap))
    → Leads slave_step send_write (stalled r ds) send_write []
unfolding slave_step
write_stalls r [] = Leads-nil _ _
write_stalls r (d ∷ ds) = Leads-on _ refl (write_stalls r ds)

read_stalls :
    (r : BusRequest) (ds : List (Drive Mmap))
    → Leads slave_step send_read (stalled r ds) send_read []
unfolding slave_step
read_stalls r [] = Leads-nil _ _
read_stalls r (d ∷ ds) = Leads-on _ refl (read_stalls r ds)

answer_waits :
    (r : BusRequest) (ds : List (Drive Mmap × Bool))
    → no_answers ds ≡ true
    → Leads slave_step wait_read (waited r ds) wait_read []
unfolding slave_step
answer_waits r [] h = Leads-nil _ _
answer_waits r (d ∷ ds) h =
    let none : (d.0.valid && d.0.beat.we) ≡ false = ground arith in
    let now : slave_step wait_read (asking r d.1 d.0) ≡ (wait_read, []) = simp none refl in
    Leads-on _ now (answer_waits r ds (ground arith))

abbrev pub answered_by : Mmap → Drive Mmap
answered_by x = record { valid = true; beat = x }

-- The cycles of a read: the request, stalls of the source, the source is ready, cycles without an
-- answer, and the answer.
abbrev pub read_cycles :
    BusRequest
    → Drive Mmap
    → Bool
    → List (Drive Mmap)
    → Drive Mmap
    → List (Drive Mmap × Bool)
    → Mmap
    → Bool
    → List Inputs
read_cycles r d ready stalls d' waits x ready' =
    asking r ready d
    ∷ (stalled r stalls
        ++ (asking r true d' ∷ (waited r waits ++ (asking r ready' (answered_by x) ∷ []))))

pub slave_step-read :
    (r : BusRequest) (d : Drive Mmap) (ready : Bool) (stalls : List (Drive Mmap)) (d' : Drive Mmap)
    (waits : List (Drive Mmap × Bool)) (x : Mmap) (ready' : Bool)
    → r.we ≡ false
    → no_answers waits ≡ true
    → x.we ≡ true
    → Leads slave_step idle
        (read_cycles r d ready stalls d' waits x ready')
        idle
        (sends (read_request r) ∷ (acks x.data_word ∷ []))
unfolding slave_step
slave_step-read r d ready stalls d' waits x ready' read none answer =
    let enters : slave_step idle (asking r ready d) ≡ (send_read, []) = simp read refl in
    let sent : slave_step send_read (asking r true d') ≡ (wait_read, sends (read_request r) ∷ []) =
      refl in
    let got : slave_step wait_read (asking r ready' (answered_by x))
        ≡ (idle, acks x.data_word ∷ []) =
      simp answer refl in
    Leads-on _ enters (
      Leads-append _ (read_stalls r stalls) (
        Leads-on _ sent
          (Leads-append _ (answer_waits r waits none) (Leads-on _ got (Leads-nil _ _)))))

-- The cycles of a write: the request, stalls of the source, and the source is ready.
abbrev pub write_cycles :
    BusRequest → Drive Mmap → Bool → List (Drive Mmap) → Drive Mmap → List Inputs
write_cycles r d ready stalls d' = asking r ready d ∷ (stalled r stalls ++ (asking r true d' ∷ []))

pub slave_step-write :
    (r : BusRequest) (d : Drive Mmap) (ready : Bool) (stalls : List (Drive Mmap)) (d' : Drive Mmap)
    → r.we ≡ true
    → Leads slave_step idle
        (write_cycles r d ready stalls d')
        idle
        (sends (write_request r) ∷ (acks 0 ∷ []))
unfolding slave_step
slave_step-write r d ready stalls d' writes =
    let enters : slave_step idle (asking r ready d) ≡ (send_write, []) = simp writes refl in
    Leads-on _ enters (Leads-append _ (write_stalls r stalls) (Leads-on _ refl (Leads-nil _ _)))
