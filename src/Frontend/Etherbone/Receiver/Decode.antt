-- ===== src/Frontend/Etherbone/Receiver/Decode.antt =====
-- The Wishbone operations that the receiver of liteeth/frontend/etherbone.py makes of beats.
use liteeth.Prelude.{ℕ, Bool, false, ◌+◌, ◌-◌, ◌*◌, ◌≤◌, ◌≡◌, refl, ◌==◌, not}
use liteeth.Prelude.{if◌then◌else◌, List, [], ◌∷◌, ◌++◌, arith, length}
use liteeth.Stream.{Cycle, Line, after, out, willing, willing_count, run}
use liteeth.Stream.Contract.{Contract, run_complete}
use liteeth.Frontend.Etherbone.{RecordBeat, Mmap}
use liteeth.Frontend.Etherbone.Receiver.{State, idle, receive_writes, receive_base_ret_addr}
use liteeth.Frontend.Etherbone.Receiver.{receive_reads, Receiver, write_beat, read_beat, count_on}
use liteeth.Frontend.Etherbone.Receiver.{entered, receive_fsm, receive_step}

-- The state after a beat has passed, and the operations for the beats in each state.
abbrev pub after_write : ℕ → RecordBeat → State
after_write count x =
    if count == x.wcount - 1
    then (if not (x.rcount == 0) then receive_base_ret_addr else idle)
    else receive_writes

abbrev pub after_read : ℕ → RecordBeat → State
after_read count x = if count == x.rcount - 1 then idle else receive_reads

abbrev pub decoded : State → ℕ → ℕ → List RecordBeat → List Mmap
decoded s base count [] = []
decoded idle base count (x ∷ xs) = decoded (entered x) x.data_word 0 xs
decoded receive_writes base count (x ∷ xs) =
    write_beat base count x ∷ decoded (after_write count x) base (count_on count) xs
decoded receive_base_ret_addr base count (x ∷ xs) =
    read_beat x.data_word 0 x ∷ decoded (after_read 0 x) x.data_word (count_on 0) xs
decoded receive_reads base count (x ∷ xs) =
    read_beat base count x ∷ decoded (after_read count x) base (count_on count) xs

abbrev pub at : State → ℕ → ℕ → Bool → List RecordBeat → Line Receiver RecordBeat
at s base count h xs = record {
  regs = record { fsm = s; base_addr = base; count = count };
  held = h;
  left = xs;
}

-- No beat takes more than two cycles, and one in RECEIVE_BASE_RET_ADDR takes one more.
abbrev cost_at : State → List RecordBeat → ℕ
cost_at s [] = 0
cost_at receive_base_ret_addr (x ∷ xs) = 2 * length (x ∷ xs) + 1
cost_at _ (x ∷ xs) = 2 * length (x ∷ xs)

abbrev spec_of : Line Receiver RecordBeat → List Mmap
spec_of l = decoded l.regs.fsm l.regs.base_addr l.regs.count l.left

emits_at :
    (s : State) (b n : ℕ) (h : Bool) (xs : List RecordBeat) (c : Cycle RecordBeat)
    → out receive_step (at s b n h xs) c ++ spec_of (after receive_step (at s b n h xs) c)
      ≡ spec_of (at s b n h xs)
unfolding receive_fsm
emits_at idle b n h [] c = ground arith
emits_at receive_writes b n h [] c = ground arith
emits_at receive_base_ret_addr b n h [] c = ground arith
emits_at receive_reads b n h [] c = ground arith
emits_at idle b n h (x ∷ xs) c = ground arith
emits_at receive_writes b n h (x ∷ xs) c = ground arith
emits_at receive_base_ret_addr b n h (x ∷ xs) c = ground arith
emits_at receive_reads b n h (x ∷ xs) c = ground arith

abbrev work_of : Line Receiver RecordBeat → ℕ
work_of l = cost_at l.regs.fsm l.left

cost_le : (s : State) (xs : List RecordBeat) → cost_at s xs ≤ 2 * length xs + 1
cost_le s [] = omega arith
cost_le idle (x ∷ xs) = omega arith
cost_le receive_writes (x ∷ xs) = omega arith
cost_le receive_base_ret_addr (x ∷ xs) = omega arith
cost_le receive_reads (x ∷ xs) = omega arith

works_at :
    (s : State) (b n : ℕ) (h : Bool) (xs : List RecordBeat) (c : Cycle RecordBeat)
    → work_of (after receive_step (at s b n h xs) c) ≤ work_of (at s b n h xs) - willing c
unfolding receive_fsm
works_at idle b n h [] c = ground arith
works_at receive_writes b n h [] c = ground arith
works_at receive_base_ret_addr b n h [] c = ground arith
works_at receive_reads b n h [] c = ground arith
works_at idle b n h (x ∷ xs) c = ground (arith, cost_le (entered x) xs)
works_at receive_writes b n h (x ∷ xs) c = ground (arith, cost_le (after_write n x) xs)
works_at receive_base_ret_addr b n h (x ∷ xs) c = ground arith
works_at receive_reads b n h (x ∷ xs) c = ground (arith, cost_le (after_read n x) xs)

done_at : (s : State) (b n : ℕ) (xs : List RecordBeat) → cost_at s xs ≡ 0 → decoded s b n xs ≡ []
done_at s b n [] e = nothing s b n
  where
    nothing : (s : State) (b n : ℕ) → decoded s b n [] ≡ []
    nothing s b n = refl
done_at idle b n (x ∷ xs) e = absurd (omega arith)
done_at receive_writes b n (x ∷ xs) e = absurd (omega arith)
done_at receive_base_ret_addr b n (x ∷ xs) e = absurd (omega arith)
done_at receive_reads b n (x ∷ xs) e = absurd (omega arith)

receive_contract : Contract receive_step
receive_contract = record {
  Inv = λ l. Unit;
  spec = spec_of;
  work = work_of;
  keeps = λ l c i. tt;
  emits = λ l c i. emits_at l.regs.fsm l.regs.base_addr l.regs.count l.held l.left c;
  works = λ l c i. works_at l.regs.fsm l.regs.base_addr l.regs.count l.held l.left c;
  done = λ l i e. done_at l.regs.fsm l.regs.base_addr l.regs.count l.left e;
}

pub run-decoded :
    (b n : ℕ) (xs : List RecordBeat) (cs : List (Cycle RecordBeat))
    → 2 * length xs ≤ willing_count cs
    → run receive_step (at idle b n false xs) cs ≡ decoded idle b n xs
unfolding receive_contract
run-decoded b n xs cs enough =
    run_complete receive_contract (at idle b n false xs) cs tt (omega (arith, idle_cost xs, enough))
  where
    idle_cost : (xs : List RecordBeat) → cost_at idle xs ≤ 2 * length xs
    idle_cost [] = omega arith
    idle_cost (x ∷ xs) = omega arith
