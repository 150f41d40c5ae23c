-- ===== src/Core/Arp/Table/Resolve.antt =====
-- A request that is answered: from the question to the cache and to the response.
use liteeth.Prelude.{ℕ, Bool, true, false, ◌<◌, ◌≡◌}
use liteeth.Prelude.{List, [], ◌∷◌, if◌then◌else◌}
use liteeth.Core.Arp.Table.{idle, send_request}
use liteeth.Core.Arp.Table.{present_response, Table, silent_entry, Inputs}
use liteeth.Core.Arp.Table.{exhausted, tick, ticks}

-- A cycle on which the user asks for `ip` and the transmitter is ready.
abbrev pub asking : ℕ → Bool → Bool → Inputs
asking ip request_timer cached_timer = record {
  sink = silent_entry;
  source_ready = true;
  request_valid = true;
  request_ip = ip;
  response_ready = true;
  request_timer_done = request_timer;
  cached_timer_done = cached_timer;
}

-- A cycle on which the receiver shows the reply of `ip`, whatever the user asks.
abbrev pub answering : ℕ → ℕ → Bool → ℕ → Bool → Bool → Inputs
answering ip mac user other request_timer cached_timer = record {
  sink = record { valid = true; reply = true; request = false; ip_address = ip; mac_address = mac };
  source_ready = true;
  request_valid = user;
  request_ip = other;
  response_ready = true;
  request_timer_done = request_timer;
  cached_timer_done = cached_timer;
}

-- Cycles on which the transmitter is not ready, and on which nothing comes and nobody asks while the
-- timer of the request runs.
abbrev pub AllBusy : List Inputs → Type 0
AllBusy [] = Unit
AllBusy (i ∷ is) = (i.source_ready ≡ false) × AllBusy is

abbrev pub AllQuiet : List Inputs → Type 0
AllQuiet [] = Unit
AllQuiet (i ∷ is) =
    (i.sink.valid ≡ false)
    × (i.request_valid ≡ false)
    × (i.request_timer_done ≡ false)
    × AllQuiet is

-- Any registers, at rest with nothing cached.
abbrev pub resting : Table → Table
resting t = record t { fsm = idle; cached_valid = false }

module _ (max_requests bits : ℕ) (t : Table) (ip mac : ℕ) (r c : Bool) (busy quiet : List Inputs)
    (user : Bool) (other : ℕ) where
  abbrev pub reply : Inputs
  reply = answering ip mac user other r c

  -- Two cycles into the request, and while the transmitter is busy, the question is on the wires.
  abbrev pub asked : Table
  asked =
      ticks max_requests bits
        (ticks max_requests bits (resting t) (asking ip r c ∷ asking ip r c ∷ [])) busy

  -- It is out, and no answer is there.
  abbrev pub waiting : Table
  waiting = ticks max_requests bits (tick max_requests bits asked (asking ip r c)) quiet

  -- Three cycles of the reply later
  abbrev pub answered : Table
  answered = ticks max_requests bits waiting (reply ∷ reply ∷ reply ∷ [])

module _ (max_requests bits : ℕ) (several : 1 < max_requests) (t : Table) (ip mac : ℕ) (r c : Bool)
    (busy quiet : List Inputs) (user : Bool) (other : ℕ)
    (fresh : exhausted max_requests bits t ≡ false) (stalls : AllBusy busy)
    (waits : AllQuiet quiet) where
  abbrev question : Table
  question = record t { fsm = send_request; cached_valid = false; request_ip_address = ip }

  abbrev pending : Table
  pending = record t {
    fsm = idle;
    cached_valid = false;
    request_ip_address = ip;
    request_pending = true;
    request_counter = 0;
  }

  abbrev filled : Table
  filled = record {
    fsm = present_response;
    request_pending = false;
    request_ip_address = 0;
    request_counter = 0;
    cached_valid = if c then false else true;
    cached_ip_address = ip;
    cached_mac_address = mac;
  }

  abbrev reply_of : Inputs
  reply_of = reply max_requests bits t ip mac r c busy quiet user other
