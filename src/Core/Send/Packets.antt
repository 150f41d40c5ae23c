-- ===== src/Core/Send/Packets.antt =====
-- Packets at the transmitters of Send.antt.
use liteeth.Prelude.{ℕ, Bool, true, false, not, ◌+◌, ◌-◌, ◌≤◌, ◌≡◌, refl, arith}
use liteeth.Prelude.{List, [], ◌∷◌, ◌++◌, if◌then◌else◌}
use liteeth.Stream.{Beat, Cycle, Line, line, after, out, willing, willing_count, run}
use liteeth.Stream.Contract.{Contract, run_complete}
use liteeth.Core.Send.{State, idle, send, send_step}

abbrev at : State → Bool → List Beat → Line State Beat
at s h xs = record { regs = s; held = h; left = xs }

-- IDLE takes a cycle before each packet.
abbrev pub cost : Bool → List Beat → ℕ
cost started [] = 0
cost started (x ∷ xs) = (if started then 1 else 2) + cost (not x.last) xs

abbrev cost_of : State → List Beat → ℕ
cost_of idle xs = cost false xs
cost_of send xs = cost true xs

emits_at :
    (s : State) (h : Bool) (xs : List Beat) (c : Cycle Beat)
    → out send_step (at s h xs) c ++ (after send_step (at s h xs) c).left ≡ xs
unfolding send_step
emits_at idle h [] c = refl
emits_at idle h (x ∷ xs) c = ground arith
emits_at send h [] c = refl
emits_at send h (x ∷ xs) c = ground arith

works_at :
    (s : State) (h : Bool) (xs : List Beat) (c : Cycle Beat)
    → let l = after send_step (at s h xs) c in cost_of l.regs l.left ≤ cost_of s xs - willing c
unfolding send_step
works_at idle h [] c = ground arith
works_at idle h (x ∷ xs) c = ground arith
works_at send h [] c = ground arith
works_at send h (x ∷ xs) c = ground arith

done_at : (s : State) (xs : List Beat) → cost_of s xs ≡ 0 → xs ≡ []
done_at idle [] e = refl
done_at idle (x ∷ xs) e = absurd (omega arith)
done_at send [] e = refl
done_at send (x ∷ xs) e = absurd (omega arith)

send_contract : Contract send_step
send_contract = record {
  Inv = λ l. Unit {0};
  spec = λ l. l.left;
  work = λ l. cost_of l.regs l.left;
  keeps = λ l c h. tt;
  emits = λ l c h. emits_at l.regs l.held l.left c;
  works = λ l c h. works_at l.regs l.held l.left c;
  done = λ l h e. done_at l.regs l.left e;
}

-- From IDLE the transmitter of ICMP and UDP passes on all beats unchanged and in order, whatever
-- the stalls, when the willing cycles are as many as beats and packets.
pub run-send_step :
    (xs : List Beat) (cs : List (Cycle Beat))
    → cost false xs ≤ willing_count cs
    → run send_step (line idle xs) cs ≡ xs
unfolding send_contract
run-send_step xs cs enough = run_complete send_contract (line idle xs) cs tt enough
