-- ===== src/Frontend/UdpStream.antt =====
-- liteeth/frontend/stream.py: a byte stream over UDP. `stream.SyncFIFO` is a parameter.
pub mod Datagrams
pub mod Order
pub mod Ready
pub mod Through
use liteeth.Prelude.{ℕ, Bool, true, false, ◌+◌, ◌%◌, ◌^◌, ◌&&◌, ◌==◌, ltb, leb, if◌then◌else◌}
use liteeth.Prelude.{List, [], ◌∷◌, ◌++◌}
use liteeth.Stream.Fifo.{Fifo}

pub data State : Type 0 where
  idle send : State

-- A beat of `eth_udp_user_description(8)`.
pub record UserBeat : Type 0 where
  pub last : Bool
  pub src_port : ℕ
  pub dst_port : ℕ
  pub ip_address : ℕ
  pub length : ℕ
  pub data_byte : ℕ

-- `width` is that of `Signal(max=fifo_depth+1)`.
pub record Config : Type 0 where
  pub ip_address : ℕ
  pub udp_port : ℕ
  pub send_level : ℕ
  pub fifo_depth : ℕ
  pub width : ℕ

-- A byte that `valid` offers, and the `ready` of the other side.
pub record Offer (A : Type 0) : Type 0 where
  pub valid : Bool
  pub payload : A
  pub ready : Bool

pub record Tx (Q : Type 0) : Type 0 where
  pub fsm : State
  pub level : ℕ
  pub counter : ℕ
  pub fifo : Q

abbrev pub tx_at : {Q : Type 0} → State → ℕ → ℕ → Q → Tx Q
tx_at s level counter q = record { fsm = s; level = level; counter = counter; fifo = q }

-- What the sink of a FIFO takes in a cycle.
abbrev pub taken : {A : Type 0} → ℕ → ℕ → Offer A → List A
taken depth level o = if o.valid && ltb level depth then o.payload ∷ [] else []

module _ (g : Config) where
  -- The source in SEND. No `counter` is `level - 1` when `level` is 0.
  abbrev pub send_beat : ℕ → ℕ → ℕ → UserBeat
  send_beat level counter x = record {
    last = counter + 1 == level;
    src_port = g.udp_port;
    dst_port = g.udp_port;
    ip_address = g.ip_address;
    length = level;
    data_byte = x;
  }

  abbrev pub next_fsm : State → ℕ → ℕ → ℕ → Bool → State
  next_fsm idle queue level counter ready = if leb g.send_level queue then send else idle
  next_fsm send queue level counter ready = if ready && (counter + 1 == level) then idle else send

  abbrev pub next_level : State → ℕ → ℕ → ℕ
  next_level idle queue level = if leb g.send_level queue then queue % 2 ^ g.width else level
  next_level send queue level = level

  abbrev pub next_counter : State → ℕ → ℕ → Bool → ℕ
  next_counter idle queue counter ready = if leb g.send_level queue then 0 else counter
  next_counter send queue counter ready = if ready then (counter + 1) % 2 ^ g.width else counter

  -- What passes the source, and `fifo.source.ready`.
  abbrev pub sent : State → ℕ → ℕ → ℕ → Bool → List UserBeat
  sent idle level counter x ready = []
  sent send level counter x ready = if ready then send_beat level counter x ∷ [] else []

  abbrev pub pops : State → Bool → Bool
  pops idle ready = false
  pops send ready = ready

  module _ (k : Fifo ℕ) where
    unfoldable pub tx_step : Tx k.Carrier → Offer ℕ → Tx k.Carrier × List UserBeat
    tx_step s o = (
      record {
        fsm = next_fsm s.fsm (k.level s.fifo) s.level s.counter o.ready;
        level = next_level s.fsm (k.level s.fifo) s.level;
        counter = next_counter s.fsm (k.level s.fifo) s.counter o.ready;
        fifo = k.clock false o.valid o.payload (pops s.fsm o.ready) s.fifo;
      },
      sent s.fsm s.level s.counter (k.payload s.fifo) o.ready,
    )

    -- The bytes that the sink takes along a schedule.
    unfoldable pub accepted : Tx k.Carrier → List (Offer ℕ) → List ℕ
    accepted s [] = []
    accepted s (o ∷ os) = taken g.fifo_depth (k.level s.fifo) o ++ accepted (tx_step s o).0 os

  -- With no FIFO every byte is a datagram.
  abbrev pub tx_direct : ℕ → UserBeat
  tx_direct x = send_beat 1 0 x

  -- The `valid` of the receiver.
  abbrev pub for_us : UserBeat → Bool
  for_us x = (x.ip_address == g.ip_address) && (x.dst_port == g.udp_port)

  abbrev pub rx_direct : Offer UserBeat → List ℕ
  rx_direct o = if o.valid && for_us o.payload && o.ready then o.payload.data_byte ∷ [] else []

  module _ (k : Fifo ℕ) where
    -- The registers of the receiver are its FIFO, of which the source is the output.
    unfoldable pub rx_step : k.Carrier → Offer UserBeat → k.Carrier × List ℕ
    rx_step q o = (
      k.clock false (o.valid && for_us o.payload) o.payload.data_byte o.ready q,
      if o.ready && ltb 0 (k.level q) then k.payload q ∷ [] else [],
    )

    -- The beats that the sink takes along a schedule, those for others included.
    unfoldable pub handed : k.Carrier → List (Offer UserBeat) → List UserBeat
    handed q [] = []
    handed q (o ∷ os) = taken g.fifo_depth (k.level q) o ++ handed (rx_step q o).0 os
