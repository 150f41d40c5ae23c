-- ===== src/Core/Ip/Tx.antt =====
-- `LiteEthIPTX` of liteeth/core/ip.py: the FSM between the packetizer and the MAC, which asks the
-- ARP table for the target's address. The packetizer is the library's, and its source an input.
pub mod Unreachable
pub mod Multicast
use liteeth.Prelude.{ℕ, Bool, true, false, ◌+◌, ◌*◌, ◌/◌, ◌%◌, ◌^◌, ◌&&◌, ◌==◌, if◌then◌else◌}
use liteeth.Stream.{Drive, Beat}

pub data State : Type 0 where
  idle send_mac_address_request wait_mac_address_response send drop : State

pub record IpTx : Type 0 where
  pub fsm : State
  pub target_mac : ℕ

pub record Inputs : Type 0 where
  pub packetizer : Drive Beat
  pub ip_address : ℕ
  pub source_ready : Bool
  pub request_ready : Bool
  pub response_valid : Bool
  pub response_failed : Bool
  pub response_mac : ℕ

-- A beat of `eth_mac_description`, without the header fields that only the packetizer sets.
pub record MacBeat : Type 0 where
  pub beat : Beat
  pub ethernet_type : ℕ
  pub target_mac : ℕ
  pub sender_mac : ℕ

pub record Outputs : Type 0 where
  pub packetizer_ready : Bool
  pub source_valid : Bool
  pub source : MacBeat
  pub request_valid : Bool
  pub request_ip : ℕ
  pub response_ready : Bool
  pub target_unreachable : Bool

abbrev pub ethernet_type_ip : ℕ
ethernet_type_ip = 0x800

abbrev pub mcast_oui : ℕ
mcast_oui = 0x01005e

-- `224 >> 4`
abbrev pub mcast_ip_mask : ℕ
mcast_ip_mask = 14

-- `ip_address[28:] == mcast_ip_mask`
unfoldable pub is_multicast : ℕ → Bool
is_multicast ip = ip / 2 ^ 28 == mcast_ip_mask

-- `Cat(ip_address[:23], 0, mcast_oui)`
unfoldable pub multicast_mac : ℕ → ℕ
multicast_mac ip = ip % 2 ^ 23 + mcast_oui * 2 ^ 24

abbrev pub silent_source : MacBeat
silent_source = record {
  beat = record { last = false; data_word = 0; last_be = 0; error = 0 };
  ethernet_type = 0;
  target_mac = 0;
  sender_mac = 0;
}

abbrev pub quiet : Inputs → Outputs
quiet i = record {
  packetizer_ready = false;
  source_valid = false;
  source = silent_source;
  request_valid = false;
  request_ip = i.ip_address;
  response_ready = false;
  target_unreachable = false;
}

module _ (mac_address : ℕ) where
  unfoldable pub outputs : State → ℕ → Inputs → Outputs
  outputs idle mac i = quiet i
  outputs send_mac_address_request mac i = record (quiet i) { request_valid = true }
  outputs wait_mac_address_response mac i = record (quiet i) {
    response_ready = i.response_valid;
    target_unreachable = i.response_valid && i.response_failed;
  }
  outputs send mac i = record (quiet i) {
    packetizer_ready = i.source_ready;
    source_valid = i.packetizer.valid;
    source = record {
      beat = i.packetizer.beat;
      ethernet_type = ethernet_type_ip;
      target_mac = mac;
      sender_mac = mac_address;
    };
  }
  outputs drop mac i = record (quiet i) { packetizer_ready = true }

-- A clock edge.
unfoldable pub next : State → ℕ → Inputs → IpTx
next idle mac i =
    let multicast = i.packetizer.valid && is_multicast i.ip_address in
    record {
      fsm =
          if multicast then send else if i.packetizer.valid then send_mac_address_request else idle;
      target_mac = if multicast then multicast_mac i.ip_address else mac;
    }
next send_mac_address_request mac i = record {
  fsm = if i.request_ready then wait_mac_address_response else send_mac_address_request;
  target_mac = mac;
}
next wait_mac_address_response mac i = record {
  fsm =
      if i.response_valid
      then (if i.response_failed then drop else send)
      else wait_mac_address_response;
  target_mac = if i.response_valid then i.response_mac else mac;
}
next send mac i = record {
  fsm = if i.packetizer.valid && i.packetizer.beat.last && i.source_ready then idle else send;
  target_mac = mac;
}
next drop mac i = record {
  fsm = if i.packetizer.valid && i.packetizer.beat.last then idle else drop;
  target_mac = mac;
}
