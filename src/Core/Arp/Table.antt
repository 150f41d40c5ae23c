-- ===== src/Core/Arp/Table.antt =====
-- `LiteEthARPTable` of liteeth/core/arp.py: the one-entry cache, and the requests that fill it.
pub mod Failure
pub mod Resolve
use liteeth.Prelude.{ℕ, Bool, true, false, not, ◌+◌, ◌-◌, ◌%◌, ◌^◌, ◌&&◌, ◌||◌, ◌==◌, if◌then◌else◌}
use liteeth.Prelude.{Option, none, some, List, [], ◌∷◌}
use mathlib.Core.Option

pub data State : Type 0 where
  idle send_reply update_table check_table send_request present_response : State

pub record Table : Type 0 where
  pub fsm : State
  pub request_pending : Bool
  pub request_ip_address : ℕ
  pub request_counter : ℕ
  pub cached_valid : Bool
  pub cached_ip_address : ℕ
  pub cached_mac_address : ℕ

-- A beat of `_arp_table_layout`.
pub record Entry : Type 0 where
  pub valid : Bool
  pub reply : Bool
  pub request : Bool
  pub ip_address : ℕ
  pub mac_address : ℕ

-- What the other modules drive; the two timers are `WaitTimer`s of the library.
pub record Inputs : Type 0 where
  pub sink : Entry
  pub source_ready : Bool
  pub request_valid : Bool
  pub request_ip : ℕ
  pub response_ready : Bool
  pub request_timer_done : Bool
  pub cached_timer_done : Bool

-- What the FSM drives. `counter_reset` is `none` where it leaves `request_counter_reset` alone.
pub record Signals : Type 0 where
  pub next : State
  pub source : Entry
  pub request_ready : Bool
  pub response_valid : Bool
  pub pending_clr : Bool
  pub pending_set : Bool
  pub ip_reset : Bool
  pub ip_update : Bool
  pub counter_reset : Option Bool
  pub counter_ce : Bool
  pub update : Bool

abbrev pub silent_entry : Entry
silent_entry = record {
  valid = false;
  reply = false;
  request = false;
  ip_address = 0;
  mac_address = 0;
}

abbrev pub stay : State → Signals
stay s = record {
  next = s;
  source = silent_entry;
  request_ready = false;
  response_valid = false;
  pending_clr = false;
  pending_set = false;
  ip_reset = false;
  ip_update = false;
  counter_reset = none;
  counter_ce = false;
  update = false;
}

module _ (max_requests bits : ℕ) where
  abbrev pub exhausted : Table → Bool
  exhausted t = t.request_counter == max_requests - 1

  unfoldable pub act : State → Table → Inputs → Signals
  act idle t i = record (stay idle) {
    next =
        if i.sink.valid && i.sink.request
        then send_reply
        else if i.sink.valid && i.sink.reply && t.request_pending
        then update_table
        else if exhausted t
        then present_response
        else if i.request_valid || (t.request_pending && i.request_timer_done)
        then check_table
        else idle;
  }
  act send_reply t i = record (stay send_reply) {
    source = record {
      valid = true;
      reply = true;
      request = false;
      ip_address = i.sink.ip_address;
      mac_address = i.sink.mac_address;
    };
    next = if i.source_ready then idle else send_reply;
  }
  act update_table t i = record (stay update_table) {
    pending_clr = true;
    update = true;
    next = check_table;
  }
  act check_table t i =
      let stored = t.cached_valid && t.request_ip_address == t.cached_ip_address in
      let asked = t.cached_valid && not stored && i.request_ip == t.cached_ip_address in
      record (stay check_table) {
        ip_reset = stored;
        request_ready = asked && i.request_valid;
        ip_update = not stored && not asked && i.request_valid;
        next = if stored || asked then present_response else send_request;
      }
  act send_request t i = record (stay send_request) {
    source = record {
      valid = true;
      reply = false;
      request = true;
      ip_address = t.request_ip_address;
      mac_address = 0;
    };
    counter_reset = if i.source_ready then some i.request_valid else none;
    counter_ce = i.source_ready;
    pending_set = i.source_ready;
    request_ready = i.source_ready;
    next = if i.source_ready then idle else send_request;
  }
  act present_response t i = record (stay present_response) {
    response_valid = true;
    next = if i.response_ready then idle else present_response;
  }

  abbrev pub signals : Table → Inputs → Signals
  signals t i = act t.fsm t i

  -- `response.valid`, `response.failed` and `response.mac_address`
  abbrev pub response : Table → Inputs → Bool × Bool × ℕ
  response t i = ((signals t i).response_valid, exhausted t, t.cached_mac_address)

  -- What the registers take at a clock edge from the signals of the cycle.
  unfoldable pub latch : Signals → Table → Inputs → Table
  latch s t i = record {
    fsm = s.next;
    request_pending =
        if s.pending_clr || exhausted t
        then false
        else if s.pending_set
        then true
        else t.request_pending;
    request_ip_address =
        if s.ip_reset then 0 else if s.ip_update then i.request_ip else t.request_ip_address;
    request_counter =
        if Option.get_or s.counter_reset (exhausted t)
        then 0
        else if s.counter_ce
        then (t.request_counter + 1) % 2 ^ bits
        else t.request_counter;
    cached_valid = if s.update then true else if i.cached_timer_done then false else t.cached_valid;
    cached_ip_address = if s.update then i.sink.ip_address else t.cached_ip_address;
    cached_mac_address = if s.update then i.sink.mac_address else t.cached_mac_address;
  }

  abbrev pub tick : Table → Inputs → Table
  tick t i = latch (signals t i) t i

  unfoldable pub ticks : Table → List Inputs → Table
  ticks t [] = t
  ticks t (i ∷ is) = ticks (tick t i) is

-- The registers after a reset.
abbrev pub reset : Table
reset = record {
  fsm = idle;
  request_pending = false;
  request_ip_address = 0;
  request_counter = 0;
  cached_valid = false;
  cached_ip_address = 0;
  cached_mac_address = 0;
}
