-- ===== src/Tests/UdpStream.antt =====
-- The byte stream of liteeth/frontend/stream.py on concrete schedules.
use liteeth.Prelude.{ℕ, Bool, true, false, ◌≡◌, refl, arith, List, [], ◌∷◌, ◌++◌}
use liteeth.Stream.Fifo.{Fifo, FifoLaws, list_fifo, list_fifo_laws}
use liteeth.Machine.{ticks, outs}
use liteeth.Frontend.UdpStream.{
  Config, Offer, UserBeat, tx_at, idle, send_beat, tx_step, rx_step, accepted, handed,
}
use liteeth.Frontend.UdpStream.Datagrams.{beats}
use liteeth.Frontend.UdpStream.Order.{SendingAt, tx_step-datagrams}
use liteeth.Frontend.UdpStream.Ready.{tx_step-when_ready}
use liteeth.Frontend.UdpStream.Through.{handed-tx_step}

abbrev config : Config
config = record {
  ip_address = 0xc0a80132;
  udp_port = 1234;
  send_level = 2;
  fifo_depth = 4;
  width = 3;
}

abbrev peer : Config
peer = record config { ip_address = 0xc0a80164 }

abbrev bytes : Bool → ℕ → Bool → Offer ℕ
bytes valid x ready = record { valid = valid; payload = x; ready = ready }

-- Six bytes; the source stalls, and the queue is full once.
abbrev offers : List (Offer ℕ)
offers =
    bytes true 7 true
    ∷ bytes true 8 true
    ∷ bytes true 9 false
    ∷ bytes true 10 false
    ∷ bytes true 11 false
    ∷ bytes true 11 true
    ∷ bytes true 12 true
    ∷ bytes false 0 true
    ∷ bytes false 0 true
    ∷ []

abbrev fifo : Fifo ℕ
fifo = list_fifo 4 0

abbrev laws : FifoLaws 4 fifo
laws = list_fifo_laws 4 0

abbrev from_peer : Bool → UserBeat → Bool → Offer UserBeat
from_peer valid x ready = record {
  valid = valid;
  payload = record x { ip_address = 0xc0a80164 };
  ready = ready;
}

-- The sender's beats as they arrive: two datagrams begun.
abbrev arrivals : List (Offer UserBeat)
arrivals =
    from_peer true (send_beat config 2 0 7) false
    ∷ from_peer false (send_beat config 2 0 7) true
    ∷ from_peer true (send_beat config 2 1 8) true
    ∷ from_peer true (send_beat config 3 0 9) false
    ∷ []

tx_step-datagrams_example :
    let s = tx_at idle 0 0 [] in
    SendingAt config fifo laws
      (accepted config fifo s offers)
      (outs (tx_step config fifo) s offers)
      (ticks (tx_step config fifo) s offers)
tx_step-datagrams_example =
    tx_step-datagrams config fifo laws (omega arith) (omega arith) (tx_at idle 0 0 []) offers refl
      refl

abbrev queue : List ℕ
queue = 7 ∷ 8 ∷ 9 ∷ []

tx_step-when_ready_example :
    let s = tx_at idle 1 2 queue in
    let os =
      bytes true 10 false ∷ bytes true 11 true ∷ bytes false 0 true ∷ bytes true 12 true ∷ [] in
    (outs (tx_step config fifo) s os ≡ beats config 3 0 (7 ∷ 8 ∷ 9 ∷ []))
    × ((ticks (tx_step config fifo) s os).fsm ≡ idle)
tx_step-when_ready_example =
    tx_step-when_ready config fifo laws (omega arith) 1 2 (7 ∷ 8 ∷ 9 ∷ []) 7 (8 ∷ 9 ∷ [])
      (bytes true 10 false) (bytes true 11 true ∷ bytes false 0 true ∷ bytes true 12 true ∷ []) refl
      (omega arith) (omega arith) (refl, (refl, (refl, tt))) refl

handed-tx_step_example :
    let s = tx_at idle 0 0 [] in
    accepted config fifo s offers
    ≡ (outs (rx_step peer fifo) [] arrivals ++ ticks (rx_step peer fifo) [] arrivals)
      ++ (ticks (tx_step config fifo) s offers).fifo
unfolding handed outs tx_step rx_step
handed-tx_step_example =
    handed-tx_step config peer fifo fifo laws laws (omega arith) (omega arith) refl
      (tx_at idle 0 0 []) offers [] arrivals refl refl refl refl
