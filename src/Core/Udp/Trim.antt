-- ===== src/Core/Udp/Trim.antt =====
-- `LiteEthUDPRX` of liteeth/core/udp.py, beat by beat.
use liteeth.Prelude.{ℕ, Bool, true, false, ◌+◌, ◌-◌, ◌%◌, ◌^◌, ◌≤◌, ◌≡◌, ◌==◌, ◌&&◌, refl, arith}
use liteeth.Prelude.{List, [], ◌∷◌, ◌++◌, if◌then◌else◌}
use liteeth.Stream.{Beat, Cycle, Line, line, after, out, willing, willing_count, run}
use liteeth.Stream.Contract.{Contract, run_complete}
use liteeth.Core.Udp.{Incoming, State, idle, receive, drop, UdpRx, rx_step, rx_fsm}
use liteeth.Core.Udp.{source_last, source_beat, receives, udp_protocol}

-- IDLE takes a cycle before each packet.
abbrev pub cost : Bool → List Incoming → ℕ
cost started [] = 0
cost started (x ∷ xs) = (if started then 1 else 2) + cost (if x.beat.last then false else true) xs

-- The state that takes a beat: IDLE decides on it first.
abbrev pub entered : State → Incoming → State
entered idle x = if x.protocol == udp_protocol then receive else drop
entered receive x = receive
entered drop x = drop

abbrev pub count_in : State → ℕ → ℕ
count_in idle n = 0
count_in receive n = n
count_in drop n = n

abbrev pub idle_rx : UdpRx
idle_rx = record { fsm = idle; count = 0 }

module _ (bytes : ℕ) where
  -- The state after a beat is taken.
  abbrev pub left_in : State → ℕ → Incoming → State
  left_in s n x =
      if x.beat.last then idle else if receives s && source_last bytes n x then drop else s

  abbrev pub counted : State → ℕ → ℕ
  counted s n = if receives s then (n + bytes) % 2 ^ 16 else n

  abbrev pub kept : State → ℕ → Incoming → List Beat
  kept s n x = if receives s then source_beat bytes n x ∷ [] else []

  -- What the receiver makes of the beats, from a state and a count.
  abbrev pub trimmed : State → ℕ → List Incoming → List Beat
  trimmed s n [] = []
  trimmed s n (x ∷ xs) =
      let t = entered s x in
      let m = count_in s n in kept t m x ++ trimmed (left_in t m x) (counted t m) xs

  abbrev at : State → ℕ → Bool → List Incoming → Line UdpRx Incoming
  at s n h xs = record { regs = record { fsm = s; count = n }; held = h; left = xs }

  abbrev spec_of : Line UdpRx Incoming → List Beat
  spec_of l = trimmed l.regs.fsm l.regs.count l.left

  abbrev cost_of : State → List Incoming → ℕ
  cost_of idle xs = cost false xs
  cost_of receive xs = cost true xs
  cost_of drop xs = cost true xs

  emits_at :
      (s : State) (n : ℕ) (h : Bool) (xs : List Incoming) (c : Cycle Incoming)
      → out (rx_step bytes) (at s n h xs) c ++ spec_of (after (rx_step bytes) (at s n h xs) c)
        ≡ spec_of (at s n h xs)
  unfolding rx_step rx_fsm
  emits_at idle n h [] c = refl
  emits_at idle n h (x ∷ xs) c = ground arith
  emits_at receive n h [] c = refl
  emits_at receive n h (x ∷ xs) c = ground arith
  emits_at drop n h [] c = refl
  emits_at drop n h (x ∷ xs) c = ground arith

  works_at :
      (s : State) (n : ℕ) (h : Bool) (xs : List Incoming) (c : Cycle Incoming)
      → let l = after (rx_step bytes) (at s n h xs) c in
        cost_of l.regs.fsm l.left ≤ cost_of s xs - willing c
  unfolding rx_step rx_fsm
  works_at idle n h [] c = ground arith
  works_at idle n h (x ∷ xs) c = ground arith
  works_at receive n h [] c = ground arith
  works_at receive n h (x ∷ xs) c = ground arith
  works_at drop n h [] c = ground arith
  works_at drop n h (x ∷ xs) c = ground arith

  done_at : (s : State) (n : ℕ) (xs : List Incoming) → cost_of s xs ≡ 0 → trimmed s n xs ≡ []
  done_at s n [] e = refl
  done_at idle n (x ∷ xs) e = absurd (omega arith)
  done_at receive n (x ∷ xs) e = absurd (omega arith)
  done_at drop n (x ∷ xs) e = absurd (omega arith)

  trim_contract : Contract (rx_step bytes)
  trim_contract = record {
    Inv = λ l. Unit {0};
    spec = spec_of;
    work = λ l. cost_of l.regs.fsm l.left;
    keeps = λ l c h. tt;
    emits = λ l c h. emits_at l.regs.fsm l.regs.count l.held l.left c;
    works = λ l c h. works_at l.regs.fsm l.regs.count l.held l.left c;
    done = λ l h e. done_at l.regs.fsm l.regs.count l.left e;
  }

  pub trim_complete :
      (xs : List Incoming) (cs : List (Cycle Incoming))
      → cost false xs ≤ willing_count cs
      → run (rx_step bytes) (line idle_rx xs) cs ≡ trimmed idle 0 xs
  unfolding trim_contract
  trim_complete xs cs enough = run_complete trim_contract (line idle_rx xs) cs tt enough
