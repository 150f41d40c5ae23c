-- ===== src/Tests/Core/Arp.antt =====
-- The ARP table, and the IP transmitter on it.
use liteeth.Prelude.{true, false, ◌≡◌, ◌≢◌, refl, arith, List, [], ◌∷◌}
use liteeth.Core.Arp.Table.{
  Table, Inputs, send_request, act, latch, tick, ticks, reset, response, silent_entry,
}
use liteeth.Core.Arp.Table.Failure.{TableInv, tick-TableInv, failed_never_valid}
use liteeth.Core.Arp.Table.Resolve.{asking, answering}
use liteeth.Core.Ip.Tx.{send, drop}
use liteeth.Core.Ip.Tx.Unreachable.{
  Outside, clocks, clock, unreachable, waiting, never_unreachable, unanswered_is_sent,
}
use liteeth.Core.Ip.Tx.Unreachable as System
use liteeth.Core.Arp.Table.{Entry}
use liteeth.Core.Arp.Packet.{tx_header, rx_source, rx_ready, rx_next, wait_header, terminate}
use liteeth.Core.Arp.Packet.Answer.{arriving, second, third, rx_source-tx_header}
use liteeth.Prelude.{not, ◌&&◌, ◌==◌, if◌then◌else◌}
use liteeth.Tests.Data.{beat}

-- After seven requests, with an address from before in the cache.
abbrev spent : Table
spent = record reset { request_counter = 7; cached_mac_address = 0xabcdef; request_pending = true }

abbrev busy : Table
busy = record reset { fsm = send_request; request_counter = 5; request_ip_address = 0x0a000001 }

tick-TableInv_example :
    TableInv 8 3 (omega arith) (omega arith) (tick 8 3 busy (asking 0x0a000001 false false))
tick-TableInv_example =
    tick-TableInv 8 3 (omega arith) (omega arith) busy (asking 0x0a000001 false false) (omega arith)

abbrev resolving : List Inputs
resolving =
    asking 0x0a000001 false false
    ∷ asking 0x0a000001 false false
    ∷ asking 0x0a000001 false false
    ∷ answering 0x0a000001 0xabc false 0 false false
    ∷ answering 0x0a000001 0xabc false 0 false false
    ∷ answering 0x0a000001 0xabc false 0 false false
    ∷ []

failed_never_valid_example :
    (response 8 3 (ticks 8 3 reset resolving) (asking 0x0a000001 false false)).1 ≡ false
unfolding ticks latch act
failed_never_valid_example =
    failed_never_valid 8 3 (omega arith) (omega arith) resolving (asking 0x0a000001 false false)
      refl

-- The transmitter is busy for a cycle, and the answer takes two more to come.
abbrev stalling : List Inputs
stalling = record (asking 0x0a000001 false false) { source_ready = false } ∷ []

abbrev silence : List Inputs
silence =
    record (asking 0 false false) { request_valid = false }
    ∷ record (asking 0 false true) { request_valid = false }
    ∷ []

-- A packet for 10.0.0.1 waits, and nobody answers.
abbrev outside : Outside
outside = record {
  packetizer = record { valid = true; beat = beat false 0x45 };
  ip_address = 0x0a000001;
  mac_ready = true;
  arp_rx = silent_entry;
  arp_tx_ready = true;
  request_timer_done = true;
  cached_timer_done = false;
}

never_unreachable_example :
    let s = clocks 8 3 0x1234 System.reset (outside ∷ outside ∷ outside ∷ []) in
    (unreachable 8 3 0x1234 s outside ≡ false) × (s.tx.fsm ≢ drop)
never_unreachable_example =
    never_unreachable 8 3 0x1234 (omega arith) (omega arith) (outside ∷ outside ∷ outside ∷ [])
      outside

unanswered_is_sent_example :
    (clocks 8 3 0x1234 (waiting 0 spent) (outside ∷ outside ∷ [])).tx
    ≡ record { fsm = send; target_mac = 0xabcdef }
unanswered_is_sent_example =
    unanswered_is_sent 8 3 0x1234 (omega arith) 0 spent outside outside refl refl

-- A request of 10.0.0.2 for 10.0.0.1
abbrev request : Entry
request = record silent_entry { valid = true; request = true; ip_address = 0x0a000001 }

rx_source-tx_header_example :
    let h = tx_header 0x1234 0x0a000002 request in
    let for_us = request.ip_address == 0x0a000001 in
    (rx_source (second 0x0a000001 h true).fsm (second 0x0a000001 h true).valid (arriving true h)
      ≡ record {
        valid = for_us;
        reply = for_us && request.reply;
        request = for_us && (not request.reply && request.request);
        ip_address = 0x0a000002;
        mac_address = 0x1234;
      })
    × (rx_ready wait_header (arriving true h) ≡ false)
    × (rx_ready (second 0x0a000001 h true).fsm (arriving true h) ≡ false)
    × ((rx_source
          (third 0x0a000001 h true).fsm
          (third 0x0a000001 h true).valid
          (arriving true h)).valid
        ≡ false)
    × (rx_ready (third 0x0a000001 h true).fsm (arriving true h) ≡ true)
    × ((rx_next 0x0a000001 (third 0x0a000001 h true).fsm (arriving true h)).fsm
        ≡ (if true then wait_header else terminate))
rx_source-tx_header_example = rx_source-tx_header 0x1234 0x0a000002 0x0a000001 request true
