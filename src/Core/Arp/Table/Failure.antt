-- ===== src/Core/Arp/Table/Failure.antt =====
-- When the ARP table reports that nobody answered.
use native.Mathlib.Nat.{mod-eq_of_lt}
use liteeth.Prelude.{ℕ, true, false, ◌+◌, ◌%◌, ◌^◌, ◌≤◌, ◌<◌, ◌≡◌, arith}
use liteeth.Prelude.{List, [], ◌∷◌}
use liteeth.Core.Arp.Table.{State, idle, send_reply, update_table, check_table, send_request}
use liteeth.Core.Arp.Table.{
  present_response, Table, Inputs, act, exhausted, response, latch, tick, ticks, reset,
}

module _ (max_requests bits : ℕ) (several : 1 < max_requests) (fits : max_requests ≤ 2 ^ bits) where
  abbrev pub CounterInv : State → ℕ → Type 0
  CounterInv idle n = n < max_requests
  CounterInv send_reply n = n + 1 < max_requests
  CounterInv update_table n = n + 1 < max_requests
  CounterInv check_table n = n + 1 < max_requests
  CounterInv send_request n = n + 1 < max_requests
  CounterInv present_response n = n + 1 < max_requests

  abbrev pub TableInv : Table → Type 0
  TableInv t = CounterInv t.fsm t.request_counter

  wraps_not : (n : ℕ) → n + 1 < max_requests → (n + 1) % 2 ^ bits ≡ n + 1
  wraps_not n h = mod-eq_of_lt (omega arith)

  keeps_at :
      (s : State) (t : Table) (i : Inputs)
      → CounterInv s t.request_counter
      → TableInv (latch max_requests bits (act max_requests bits s t i) t i)
  unfolding latch act
  keeps_at idle t i h = ground arith
  keeps_at send_reply t i h = ground arith
  keeps_at update_table t i h = ground arith
  keeps_at check_table t i h = ground arith
  keeps_at send_request t i h = ground (arith, wraps_not t.request_counter)
  keeps_at present_response t i h = ground arith

  -- A clock edge keeps the invariant of the ARP table: the counter is below `max_requests`, and in
  -- all states but IDLE it is not at its last value.
  pub tick-TableInv : (t : Table) (i : Inputs) → TableInv t → TableInv (tick max_requests bits t i)
  tick-TableInv t i h = keeps_at t.fsm t i h

  pub ticks-TableInv :
      (is : List Inputs) (t : Table) → TableInv t → TableInv (ticks max_requests bits t is)
  unfolding ticks
  ticks-TableInv [] t h = h
  ticks-TableInv (i ∷ is) t h = ticks-TableInv is (tick max_requests bits t i) (tick-TableInv t i h)

  valid_not_exhausted :
      (s : State) (t : Table) (i : Inputs)
      → CounterInv s t.request_counter
      → (act max_requests bits s t i).response_valid ≡ true
      → exhausted max_requests bits t ≡ false
  unfolding act
  valid_not_exhausted idle t i h v = cc
  valid_not_exhausted send_reply t i h v = cc
  valid_not_exhausted update_table t i h v = cc
  valid_not_exhausted check_table t i h v = cc
  valid_not_exhausted send_request t i h v = cc
  valid_not_exhausted present_response t i h v = ground arith

  pub response_not_failed :
      (t : Table) (i : Inputs)
      → TableInv t
      → (response max_requests bits t i).0 ≡ true
      → (response max_requests bits t i).1 ≡ false
  response_not_failed t i h v = valid_not_exhausted t.fsm t i h v

  -- From reset, whatever the inputs, `failed` of the ARP table is low on every cycle on which its
  -- response is valid, when the table makes more than one request and its counter can hold their
  -- number.
  pub failed_never_valid :
      (is : List Inputs) (i : Inputs)
      → (response max_requests bits (ticks max_requests bits reset is) i).0 ≡ true
      → (response max_requests bits (ticks max_requests bits reset is) i).1 ≡ false
  failed_never_valid is i v =
      response_not_failed (ticks max_requests bits reset is) i
        (ticks-TableInv is reset (omega arith)) v

  gives_up_at :
      (s : State) (t : Table) (i j : Inputs)
      → s ≡ idle
      → exhausted max_requests bits t ≡ true
      → i.sink.valid ≡ false
      → response max_requests bits (latch max_requests bits (act max_requests bits s t i) t i) j
        ≡ (true, false, t.cached_mac_address)
  unfolding latch act
  gives_up_at idle t i j e x v = ground arith
  gives_up_at send_reply t i j e x v = cc
  gives_up_at update_table t i j e x v = cc
  gives_up_at check_table t i j e x v = cc
  gives_up_at send_request t i j e x v = cc
  gives_up_at present_response t i j e x v = cc

  -- In IDLE with the counter exhausted and no ARP packet, the ARP table presents on the next cycle
  -- a response that is valid, not failed, and has the MAC address last cached.
  pub gives_up_with_stale_mac :
      (t : Table) (i j : Inputs)
      → t.fsm ≡ idle
      → exhausted max_requests bits t ≡ true
      → i.sink.valid ≡ false
      → response max_requests bits (tick max_requests bits t i) j
        ≡ (true, false, t.cached_mac_address)
  gives_up_with_stale_mac t i j e x v = gives_up_at t.fsm t i j e x v
