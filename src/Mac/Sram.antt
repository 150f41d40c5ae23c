-- ===== src/Mac/Sram.antt =====
-- liteeth/mac/sram.py: the slots of memory between the stream of frames and the processor's bus.
pub mod Writer
pub mod Reader
pub mod RoundTrip
use liteeth.Prelude.{ℕ, Bool, ◌+◌, ◌/◌, ◌%◌, ◌^◌, ◌&&◌, ◌==◌, if◌then◌else◌, List, [], ◌∷◌}

abbrev pub eth_mtu : ℕ
eth_mtu = 1530

-- What the two FIFOs carry: `stat_fifo_layout` without the time stamp, and the commands.
pub record Slot : Type 0 where
  pub slot : ℕ
  pub length : ℕ

-- `mems`: a word of 32 bits for each slot and address.
abbrev pub Mems : Type 0
Mems = ℕ → ℕ → ℕ

abbrev pub write : ℕ → ℕ → ℕ → Mems → Mems
write slot adr word mems s a = if s == slot && a == adr then word else mems s a

-- `x[2:]` on an address port of `adr_bits` bits.
abbrev pub word_adr : ℕ → ℕ → ℕ
word_adr adr_bits x = x / 4 % 2 ^ adr_bits

-- The words `ws` in a slot from the address `k` on.
unfoldable pub written : ℕ → ℕ → ℕ → List ℕ → Mems → Mems
written adr_bits slot k [] mems = mems
written adr_bits slot k (w ∷ ws) mems =
    written adr_bits slot (k + 1) ws (write slot (k % 2 ^ adr_bits) w mems)
