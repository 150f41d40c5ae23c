-- ===== src/Frontend/Etherbone/Master.antt =====
-- liteeth/frontend/etherbone.py: `LiteEthEtherboneWishboneMaster`, with the bus that it drives.
pub mod Answers
pub mod Serve
use liteeth.Prelude.{ℕ, Bool, true, false, ◌&&◌, not, if◌then◌else◌, List}
use liteeth.Stream.{Drive, Wires, wires, Step, Cycle, Line, after, out}
use liteeth.Frontend.Etherbone.{Mmap}

pub data State : Type 0 where
  idle write_data read_data send_data : State

-- The registers: the FSM's state and those of the source's payload, of which `we` is always 1.
pub record Master : Type 0 where
  pub fsm : State
  pub base_addr : ℕ
  pub addr : ℕ
  pub count : ℕ
  pub be : ℕ
  pub data_word : ℕ

-- A Wishbone slave: `write adr dat_w sel` and `read adr sel`, done on the cycle of its `ack`.
pub record Bus : Type 1 where
  pub Memory : Type 0
  pub write : ℕ → ℕ → ℕ → Memory → Memory
  pub read : ℕ → ℕ → Memory → ℕ

module _ (bus : Bus) where
  open bus use {Memory, write, read}

  -- The registers that the module's own statement loads on every edge.
  abbrev pub latched : State → ℕ → Mmap → Master
  latched fsm data_word x = record {
    fsm = fsm;
    base_addr = x.base_addr;
    addr = x.addr;
    count = x.count;
    be = x.be;
    data_word = data_word;
  }

  abbrev pub source_beat : Bool → Master → Mmap
  source_beat last r = record {
    last = last;
    we = true;
    count = r.count;
    base_addr = r.base_addr;
    be = r.be;
    addr = r.addr;
    data_word = r.data_word;
  }

  -- `ack` is the slave's, when it is asked.
  unfoldable pub master_fsm :
      Bool → State → Master → Memory → Drive Mmap → Bool → (Master × Memory) × Wires Mmap
  master_fsm ack idle r mem sink ready = (
    (
      latched (if sink.valid then (if sink.beat.we then write_data else read_data) else idle)
          r.data_word sink.beat,
      mem,
    ),
    wires (not sink.valid) false (source_beat false r),
  )
  master_fsm ack write_data r mem sink ready =
      let acked = sink.valid && ack in
      (
        (
          latched (if acked && sink.beat.last then idle else write_data) r.data_word sink.beat,
          if acked then write sink.beat.addr sink.beat.data_word sink.beat.be mem else mem,
        ),
        wires acked false (source_beat false r),
      )
  master_fsm ack read_data r mem sink ready =
      let acked = sink.valid && ack in
      (
        (
          latched (if acked then send_data else read_data)
              (if acked then read sink.beat.addr sink.beat.be mem else r.data_word) sink.beat,
          mem,
        ),
        wires false false (source_beat false r),
      )
  master_fsm ack send_data r mem sink ready = (
    (
      latched
          (if sink.valid && ready then (if sink.beat.last then idle else read_data) else send_data)
          r.data_word sink.beat,
      mem,
    ),
    wires ready sink.valid (source_beat sink.beat.last r),
  )

  abbrev pub master_step : Bool → Step (Master × Memory) Mmap Mmap
  master_step ack s sink ready = master_fsm ack s.0.fsm s.0 s.1 sink ready

  -- A cycle of the stream's two sides and of the slave.
  pub record BusCycle : Type 0 where
    pub cycle : Cycle Mmap
    pub ack : Bool

  abbrev pub serve_step :
      Line (Master × Memory) Mmap → BusCycle → Line (Master × Memory) Mmap × List Mmap
  serve_step l c = (after (master_step c.ack) l c.cycle, out (master_step c.ack) l c.cycle)
