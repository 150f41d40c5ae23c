-- ===== src/Core/Gate/Packet.antt =====
-- Packets at the gate of Gate.antt, accepted or not.
use liteeth.Prelude.{ℕ, Bool, true, false, not, ◌+◌, ◌-◌, ◌≤◌, ◌≡◌, refl, arith}
use liteeth.Prelude.{List, [], ◌∷◌, ◌++◌, if◌then◌else◌}
use liteeth.Stream.{Beat, Cycle, Line, line, after, out, willing, willing_count, run, run_end}
use liteeth.Stream.Contract.{Contract, run_worked, run_complete}
use liteeth.Core.Gate.{State, idle, receive, drop, gate_step}

-- IDLE takes a cycle before each packet.
abbrev pub cost : Bool → List Beat → ℕ
cost started [] = 0
cost started (x ∷ xs) = (if started then 1 else 2) + cost (not x.last) xs

if-same : {A : Type 0} {x : A} → (b : Bool) → (if b then x else x) ≡ x
if-same true = refl
if-same false = refl

module _ (accepts : Bool) where
  abbrev pub at : State → Bool → List Beat → Line State Beat
  at s h xs = record { regs = s; held = h; left = xs }

  abbrev cost_of : State → List Beat → ℕ
  cost_of idle xs = cost false xs
  cost_of receive xs = cost true xs
  cost_of drop xs = cost true xs

  abbrev GateInv : State → Type 0
  GateInv idle = Unit
  GateInv receive = accepts ≡ true
  GateInv drop = accepts ≡ false

  abbrev passed : List Beat → List Beat
  passed xs = if accepts then xs else []

  keeps_at :
      (s : State) (h : Bool) (xs : List Beat) (c : Cycle Beat)
      → GateInv s
      → GateInv (after (gate_step true accepts) (at s h xs) c).regs
  unfolding gate_step
  keeps_at idle h [] c i = ground arith
  keeps_at idle h (x ∷ xs) c i = ground arith
  keeps_at receive h [] c i = ground arith
  keeps_at receive h (x ∷ xs) c i = ground arith
  keeps_at drop h [] c i = ground arith
  keeps_at drop h (x ∷ xs) c i = ground arith

  emits_at :
      (s : State) (h : Bool) (xs : List Beat) (c : Cycle Beat)
      → GateInv s
      → out (gate_step true accepts) (at s h xs) c
          ++ passed (after (gate_step true accepts) (at s h xs) c).left
        ≡ passed xs
  unfolding gate_step
  emits_at idle h [] c i = refl
  emits_at idle h (x ∷ xs) c i = ground arith
  emits_at receive h [] c i = refl
  emits_at receive h (x ∷ xs) c i = ground arith
  emits_at drop h [] c i = refl
  emits_at drop h (x ∷ xs) c i = ground arith

  works_at :
      (s : State) (h : Bool) (xs : List Beat) (c : Cycle Beat)
      → let l = after (gate_step true accepts) (at s h xs) c in
        cost_of l.regs l.left ≤ cost_of s xs - willing c
  unfolding gate_step
  works_at idle h [] c = ground arith
  works_at idle h (x ∷ xs) c = ground arith
  works_at receive h [] c = ground arith
  works_at receive h (x ∷ xs) c = ground arith
  works_at drop h [] c = ground arith
  works_at drop h (x ∷ xs) c = ground arith

  done_at : (s : State) (xs : List Beat) → cost_of s xs ≡ 0 → xs ≡ []
  done_at idle [] e = refl
  done_at idle (x ∷ xs) e = absurd (omega arith)
  done_at receive [] e = refl
  done_at receive (x ∷ xs) e = absurd (omega arith)
  done_at drop [] e = refl
  done_at drop (x ∷ xs) e = absurd (omega arith)

  passed_none : passed [] ≡ []
  passed_none = if-same accepts

  gate_contract : Contract (gate_step true accepts)
  gate_contract = record {
    Inv = λ l. GateInv l.regs;
    spec = λ l. passed l.left;
    work = λ l. cost_of l.regs l.left;
    keeps = λ l c h. keeps_at l.regs l.held l.left c h;
    emits = λ l c h. emits_at l.regs l.held l.left c h;
    works = λ l c h. works_at l.regs l.held l.left c;
    done = λ l h e. rw (done_at l.regs l.left e) passed_none;
  }

  -- From IDLE, packets that the receiver's test accepts pass whole and in order, of others no beat
  -- passes, and all are taken, whatever the stalls, when the willing cycles are as many as beats
  -- and packets.
  pub run-gate_step :
      (xs : List Beat) (cs : List (Cycle Beat))
      → cost false xs ≤ willing_count cs
      → (run (gate_step true accepts) (line idle xs) cs ≡ (if accepts then xs else []))
        × ((run_end (gate_step true accepts) (line idle xs) cs).left ≡ [])
  unfolding gate_contract
  run-gate_step xs cs enough =
      let end = run_end (gate_step true accepts) (line idle xs) cs in
      (
        run_complete gate_contract (line idle xs) cs tt enough,
        done_at end.regs end.left (run_worked gate_contract (line idle xs) cs tt enough),
      )
