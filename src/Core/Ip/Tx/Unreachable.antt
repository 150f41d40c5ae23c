-- ===== src/Core/Ip/Tx/Unreachable.antt =====
-- The IP transmitter on the ARP table of liteeth/core/arp.py, as `LiteEthIPCore` connects them.
use liteeth.Prelude.{ℕ, Bool, true, false, ◌^◌, ◌≤◌, ◌<◌, ◌≡◌, ◌≢◌, refl, arith}
use liteeth.Prelude.{List, [], ◌∷◌}
use liteeth.Stream.{Drive, Beat}
use liteeth.Core.Ip.Tx.{
  State, idle, send_mac_address_request, wait_mac_address_response, send, drop,
}
use liteeth.Core.Ip.Tx.{IpTx, Inputs, Outputs, outputs, next}
use liteeth.Core.Arp.Table
use liteeth.Core.Arp.Table.{Table, Entry, response, signals, exhausted}
use liteeth.Core.Arp.Table.Failure.{TableInv, tick-TableInv, response_not_failed}

-- What neither of the two drives.
pub record Outside : Type 0 where
  pub packetizer : Drive Beat
  pub ip_address : ℕ
  pub mac_ready : Bool
  pub arp_rx : Entry
  pub arp_tx_ready : Bool
  pub request_timer_done : Bool
  pub cached_timer_done : Bool

pub record System : Type 0 where
  pub tx : IpTx
  pub table : Table

abbrev tx_inputs : Outside → Bool → Bool × Bool × ℕ → Inputs
tx_inputs o request_ready answer = record {
  packetizer = o.packetizer;
  ip_address = o.ip_address;
  source_ready = o.mac_ready;
  request_ready = request_ready;
  response_valid = answer.0;
  response_failed = answer.1;
  response_mac = answer.2;
}

abbrev table_inputs : Outside → Bool → Bool → Table.Inputs
table_inputs o request_valid response_ready = record {
  sink = o.arp_rx;
  source_ready = o.arp_tx_ready;
  request_valid = request_valid;
  request_ip = o.ip_address;
  response_ready = response_ready;
  request_timer_done = o.request_timer_done;
  cached_timer_done = o.cached_timer_done;
}

module _ (max_requests bits mac_address : ℕ) where
  -- The wires between the two form no loop: `request.valid` depends on the transmitter's registers
  -- alone, then the table's side on that, and `response.ready` on both.
  abbrev asks : System → Outside → Bool
  asks s o =
      (outputs mac_address s.tx.fsm s.tx.target_mac
        (tx_inputs o false (false, false, 0))).request_valid

  abbrev to_tx : System → Outside → Inputs
  to_tx s o =
      let i = table_inputs o (asks s o) false in
      tx_inputs o (signals max_requests bits s.table i).request_ready
        (response max_requests bits s.table i)

  abbrev tx_outputs : System → Outside → Outputs
  tx_outputs s o = outputs mac_address s.tx.fsm s.tx.target_mac (to_tx s o)

  abbrev to_table : System → Outside → Table.Inputs
  to_table s o = table_inputs o (asks s o) (tx_outputs s o).response_ready

  unfoldable pub clock : System → Outside → System
  clock s o = record {
    tx = next s.tx.fsm s.tx.target_mac (to_tx s o);
    table = Table.tick max_requests bits s.table (to_table s o);
  }

  unfoldable pub clocks : System → List Outside → System
  clocks s [] = s
  clocks s (o ∷ os) = clocks (clock s o) os

  abbrev pub unreachable : System → Outside → Bool
  unreachable s o = (tx_outputs s o).target_unreachable

abbrev pub reset : System
reset = record { tx = record { fsm = idle; target_mac = 0 }; table = Table.reset }

module _ (max_requests bits mac_address : ℕ) (several : 1 < max_requests)
    (fits : max_requests ≤ 2 ^ bits) where
  no_drop :
      (s : State) (mac : ℕ) (i : Inputs)
      → s ≢ drop
      → (i.response_valid ≡ true → i.response_failed ≡ false)
      → (next s mac i).fsm ≢ drop
  unfolding next
  no_drop idle mac i h v = ground arith
  no_drop send_mac_address_request mac i h v = ground arith
  no_drop wait_mac_address_response mac i h v = ground arith
  no_drop send mac i h v = ground arith
  no_drop drop mac i h v = absurd (h refl)

  no_error :
      (s : State) (mac : ℕ) (i : Inputs)
      → (i.response_valid ≡ true → i.response_failed ≡ false)
      → (outputs mac_address s mac i).target_unreachable ≡ false
  unfolding outputs
  no_error idle mac i v = refl
  no_error send_mac_address_request mac i v = refl
  no_error wait_mac_address_response mac i v = ground arith
  no_error send mac i v = refl
  no_error drop mac i v = refl

  SystemInv : System → Type 0
  SystemInv s = TableInv max_requests bits several fits s.table × (s.tx.fsm ≢ drop)

  answers :
      (s : System) (o : Outside)
      → TableInv max_requests bits several fits s.table
      → (to_tx max_requests bits mac_address s o).response_valid ≡ true
      → (to_tx max_requests bits mac_address s o).response_failed ≡ false
  answers s o h v =
      response_not_failed max_requests bits several fits s.table
        (table_inputs o (asks max_requests bits mac_address s o) false) h v

  clocks_inv :
      (os : List Outside) (s : System)
      → SystemInv s
      → SystemInv (clocks max_requests bits mac_address s os)
  unfolding SystemInv clocks clock
  clocks_inv [] s h = h
  clocks_inv (o ∷ os) s h = clocks_inv os (clock max_requests bits mac_address s o) (
    tick-TableInv max_requests bits several fits s.table
        (to_table max_requests bits mac_address s o) h.0,
    no_drop s.tx.fsm s.tx.target_mac (to_tx max_requests bits mac_address s o) h.1
        (answers s o h.0),
  )

  -- From reset, whatever the traffic, the IP transmitter on the ARP table never reports an
  -- unreachable target and is never in DROP, when the table makes more than one request and its
  -- counter can hold their number.
  pub never_unreachable :
      (os : List Outside) (o : Outside)
      → let s = clocks max_requests bits mac_address reset os in
        (unreachable max_requests bits mac_address s o ≡ false) × (s.tx.fsm ≢ drop)
  unfolding SystemInv
  never_unreachable os o =
      let s = clocks max_requests bits mac_address reset os in
      let h : SystemInv s = clocks_inv os reset (omega arith, grind arith) in
      (
        no_error s.tx.fsm s.tx.target_mac (to_tx max_requests bits mac_address s o)
            (answers s o h.0),
        h.1,
      )

-- The transmitter waits for an answer, and the table rests after its last request.
abbrev pub waiting : ℕ → Table → System
waiting mac t = record {
  tx = record { fsm = wait_mac_address_response; target_mac = mac };
  table = record t { fsm = Table.idle };
}

module _ (max_requests bits mac_address : ℕ) (several : 1 < max_requests) (mac : ℕ) (t : Table)
    (o p : Outside) (spent : exhausted max_requests bits t ≡ true)
    (quiet : o.arp_rx.valid ≡ false) where
  -- When the ARP table rests after its last request and no ARP packet comes, the waiting IP
  -- transmitter is in SEND two cycles later, with whatever MAC address the table last cached.
  pub unanswered_is_sent :
      (clocks max_requests bits mac_address (waiting mac t) (o ∷ p ∷ [])).tx
      ≡ record { fsm = send; target_mac = t.cached_mac_address }
  unfolding clocks clock next outputs Table.latch Table.act
  unanswered_is_sent = ground arith
