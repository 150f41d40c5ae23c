-- ===== src/Core/Arp/Packet/Answer.antt =====
-- What one station sends, and what another makes of it.
use liteeth.Prelude.{ℕ, Bool, true, false, not, ◌&&◌, ◌==◌, ◌≡◌, refl, arith, if◌then◌else◌}
use liteeth.Core.Arp.Table.{Entry}
use liteeth.Core.Arp.Packet.{Header, tx_header, wait_header, terminate, ArpRx, RxInputs}
use liteeth.Core.Arp.Packet.{is_for_us, rx_next, rx_ready, rx_source}

-- A cycle on which the packet with the header stands at the receiver.
abbrev pub arriving : Bool → Header → RxInputs
arriving last h = record { valid = true; last = last; header = h }

-- The receiver's registers on the second cycle, and on the third.
abbrev pub second : ℕ → Header → Bool → ArpRx
second ip h last = rx_next ip wait_header (arriving last h)

abbrev pub third : ℕ → Header → Bool → ArpRx
third ip h last = rx_next ip (second ip h last).fsm (arriving last h)

module _ (mac_address ip_address ip : ℕ) (sink : Entry) (last : Bool) where
  abbrev header : Header
  header = tx_header mac_address ip_address sink

  -- While a packet with the header of one station's ARP transmitter stands at another station's
  -- receiver, from IDLE with any register, the receiver presents on the second cycle the sender's
  -- addresses and the kind of the packet, a reply or a request, and valid just when the packet asks
  -- for its own IP address; it takes the packet from the third cycle on, presents nothing on it,
  -- and is back in IDLE after a `last`.
  pub rx_source-tx_header :
      let h = tx_header mac_address ip_address sink in
      let for_us = sink.ip_address == ip in
      (rx_source (second ip h last).fsm (second ip h last).valid (arriving last h) ≡ record {
        valid = for_us;
        reply = for_us && sink.reply;
        request = for_us && (not sink.reply && sink.request);
        ip_address = ip_address;
        mac_address = mac_address;
      })
      × (rx_ready wait_header (arriving last h) ≡ false)
      × (rx_ready (second ip h last).fsm (arriving last h) ≡ false)
      × ((rx_source (third ip h last).fsm (third ip h last).valid (arriving last h)).valid ≡ false)
      × (rx_ready (third ip h last).fsm (arriving last h) ≡ true)
      × ((rx_next ip (third ip h last).fsm (arriving last h)).fsm
          ≡ (if last then wait_header else terminate))
  unfolding tx_header is_for_us rx_next rx_ready rx_source
  rx_source-tx_header = (ground arith, refl, refl, refl, refl, refl)
