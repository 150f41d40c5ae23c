-- ===== src/Core/Arp/Packet.antt =====
-- `LiteEthARPTX` and `LiteEthARPRX` of liteeth/core/arp.py: the header of the packets, and the FSMs
-- on the packetizer and the depacketizer of the library, whose signals are inputs.
pub mod Answer
use liteeth.Prelude.{ℕ, Bool, true, false, ◌&&◌, ◌==◌, ◌+◌, ◌-◌, ◌/◌, ◌%◌, ◌^◌, if◌then◌else◌}
use liteeth.Core.Arp.Table.{Entry, silent_entry}

abbrev pub arp_hwtype_ethernet : ℕ
arp_hwtype_ethernet = 0x0001

abbrev pub arp_proto_ip : ℕ
arp_proto_ip = 0x0800

abbrev pub arp_opcode_request : ℕ
arp_opcode_request = 0x0001

abbrev pub arp_opcode_reply : ℕ
arp_opcode_reply = 0x0002

pub record Header : Type 0 where
  pub hwtype : ℕ
  pub proto : ℕ
  pub hwsize : ℕ
  pub protosize : ℕ
  pub opcode : ℕ
  pub sender_mac : ℕ
  pub sender_ip : ℕ
  pub target_mac : ℕ
  pub target_ip : ℕ

-- `packetizer.sink` of the transmitter
unfoldable pub tx_header : ℕ → ℕ → Entry → Header
tx_header mac_address ip_address sink = record {
  hwtype = arp_hwtype_ethernet;
  proto = arp_proto_ip;
  hwsize = 6;
  protosize = 4;
  opcode = if sink.reply then arp_opcode_reply else if sink.request then arp_opcode_request else 0;
  sender_mac = mac_address;
  sender_ip = ip_address;
  target_mac = if sink.reply then sink.mac_address else if sink.request then 0xffffffffffff else 0;
  target_ip = sink.ip_address;
}

pub data TxState : Type 0 where
  idle send : TxState

pub record ArpTx : Type 0 where
  pub fsm : TxState
  pub counter : ℕ

pub record TxInputs : Type 0 where
  pub sink_valid : Bool
  pub packetizer_valid : Bool
  pub packetizer_last : Bool
  pub source_ready : Bool

pub record TxOutputs : Type 0 where
  pub packetizer_valid : Bool
  pub packetizer_last : Bool
  pub packetizer_ready : Bool
  pub source_valid : Bool
  pub sink_ready : Bool

-- `counter` has `bits` bits, and `words` is `packet_words`.
module _ (words bits : ℕ) where
  unfoldable pub tx_outputs : TxState → ℕ → TxInputs → TxOutputs
  tx_outputs idle counter i = record {
    packetizer_valid = false;
    packetizer_last = counter == words - 1;
    packetizer_ready = false;
    source_valid = false;
    sink_ready = false;
  }
  tx_outputs send counter i = record {
    packetizer_valid = true;
    packetizer_last = counter == words - 1;
    packetizer_ready = i.source_ready;
    source_valid = i.packetizer_valid;
    sink_ready = i.packetizer_valid && i.source_ready && i.packetizer_last;
  }

  unfoldable pub tx_next : TxState → ℕ → TxInputs → ArpTx
  tx_next idle counter i = record { fsm = if i.sink_valid then send else idle; counter = 0 }
  tx_next send counter i =
      let passes = i.packetizer_valid && i.source_ready in
      record {
        fsm = if passes && i.packetizer_last then idle else send;
        counter = if passes then (counter + 1) % 2 ^ bits else counter;
      }

pub data RxState : Type 0 where
  wait_header check terminate : RxState

-- `wait_header` is IDLE, and `valid` the register that CHECK looks at.
pub record ArpRx : Type 0 where
  pub fsm : RxState
  pub valid : Bool

-- The depacketizer's source.
pub record RxInputs : Type 0 where
  pub valid : Bool
  pub last : Bool
  pub header : Header

module _ (ip_address : ℕ) where
  unfoldable pub is_for_us : Header → Bool
  is_for_us h =
      h.hwtype == arp_hwtype_ethernet
      && h.proto == arp_proto_ip
      && h.hwsize == 6
      && h.protosize == 4
      && h.target_ip == ip_address

  unfoldable pub rx_next : RxState → RxInputs → ArpRx
  rx_next wait_header i = record {
    fsm = if i.valid then check else wait_header;
    valid = i.valid && is_for_us i.header;
  }
  rx_next check i = record { fsm = terminate; valid = i.valid && is_for_us i.header }
  rx_next terminate i = record {
    fsm = if i.valid && i.last then wait_header else terminate;
    valid = i.valid && is_for_us i.header;
  }

-- `depacketizer.source.ready`
unfoldable pub rx_ready : RxState → RxInputs → Bool
rx_ready wait_header i = if i.valid then false else true
rx_ready check i = false
rx_ready terminate i = true

-- `source`, to the table
unfoldable pub rx_source : RxState → Bool → RxInputs → Entry
rx_source wait_header valid i = record silent_entry {
  ip_address = i.header.sender_ip;
  mac_address = i.header.sender_mac;
}
rx_source check valid i = record {
  valid = valid;
  reply = valid && i.header.opcode == arp_opcode_reply;
  request = valid && i.header.opcode == arp_opcode_request;
  ip_address = i.header.sender_ip;
  mac_address = i.header.sender_mac;
}
rx_source terminate valid i = record silent_entry {
  ip_address = i.header.sender_ip;
  mac_address = i.header.sender_mac;
}
