-- ===== src/Frontend/Etherbone.antt =====
-- liteeth/frontend/etherbone.py: Wishbone over UDP. The packetizers, the FIFOs of packets, the
-- dispatcher and the arbiter are the library's.
pub mod Receiver
pub mod Master
pub mod Sender
pub mod Replies
pub mod RoundTrip
pub mod Slave
pub mod Remote
pub mod Packet
use liteeth.Prelude.{ℕ, Bool, ◌/◌}

-- A beat of `eth_etherbone_record_description(32)`, with the header's fields that are used.
pub record RecordBeat : Type 0 where
  pub last : Bool
  pub data_word : ℕ
  pub wcount : ℕ
  pub rcount : ℕ
  pub byte_enable : ℕ

-- A beat of `eth_etherbone_mmap_description(32)`.
pub record Mmap : Type 0 where
  pub last : Bool
  pub we : Bool
  pub count : ℕ
  pub base_addr : ℕ
  pub be : ℕ
  pub addr : ℕ
  pub data_word : ℕ

-- The two low bits of an address in bytes are left out.
abbrev pub word_of : ℕ → ℕ
word_of addr = addr / 4
