-- ===== src/Mac/Gap/Spacing.antt =====
-- Packets at the gap module of liteeth/mac/gap.py.
use mathlib.Core.Path.{subst}
use native.Mathlib.Nat.{mod-eq_of_lt}
use liteeth.Prelude.{ℕ, suc, Bool, true, false, ◌+◌, ◌-◌, ◌%◌, ◌^◌, ◌≤◌, ◌<◌, ◌≡◌, refl, sym}
use liteeth.Prelude.{List, [], ◌∷◌, ◌++◌, arith, if◌then◌else◌, length}
use liteeth.Stream.{Beat, Cycle, Line, after, out, willing, willing_count, run, run_end}
use liteeth.Stream.Contract.{Contract, run_complete}
use liteeth.Mac.Gap.{State, copy, waiting, Gap, gap_fsm, gap_step}

abbrev pub at : State → ℕ → Bool → List Beat → Line Gap Beat
at s n h xs = record { regs = record { fsm = s; counter = n }; held = h; left = xs }

-- The cycles that beats take, with a gap for each `last`.
abbrev pub cost : ℕ → List Beat → ℕ
cost gap [] = 0
cost gap (x ∷ xs) = 1 + (if x.last then gap else 0) + cost gap xs

module _ (gap bits : ℕ) (some_gap : 0 < gap) (fits : gap ≤ 2 ^ bits) where
  abbrev cost_of : State → ℕ → List Beat → ℕ
  cost_of copy n xs = cost gap xs
  cost_of waiting n xs = gap - n + cost gap xs

  abbrev work_of : Line Gap Beat → ℕ
  work_of l = cost_of l.regs.fsm l.regs.counter l.left

  abbrev GapInv : State → ℕ → Type 0
  GapInv copy n = Unit
  GapInv waiting n = n < gap

  count_up : (n : ℕ) → n + 1 < gap → (n + 1) % 2 ^ bits ≡ n + 1
  count_up n h = mod-eq_of_lt (omega arith)

  keeps_at :
      (s : State) (n : ℕ) (h : Bool) (xs : List Beat) (c : Cycle Beat)
      → GapInv s n
      → let l = after (gap_step gap bits) (at s n h xs) c in GapInv l.regs.fsm l.regs.counter
  unfolding gap_fsm
  keeps_at copy n h [] c i = ground arith
  keeps_at copy n h (x ∷ xs) c i = ground arith
  keeps_at waiting n h xs c i = ground (arith, count_up n)

  emits_at :
      (s : State) (n : ℕ) (h : Bool) (xs : List Beat) (c : Cycle Beat)
      → out (gap_step gap bits) (at s n h xs) c ++ (after (gap_step gap bits) (at s n h xs) c).left
        ≡ xs
  unfolding gap_fsm
  emits_at copy n h [] c = refl
  emits_at copy n h (x ∷ xs) c = ground arith
  emits_at waiting n h [] c = refl
  emits_at waiting n h (x ∷ xs) c = ground arith

  works_at :
      (s : State) (n : ℕ) (h : Bool) (xs : List Beat) (c : Cycle Beat)
      → GapInv s n
      → work_of (after (gap_step gap bits) (at s n h xs) c) ≤ work_of (at s n h xs) - willing c
  unfolding gap_fsm
  works_at copy n h [] c i = ground arith
  works_at copy n h (x ∷ xs) c i = ground arith
  works_at waiting n h [] c i = ground (arith, count_up n)
  works_at waiting n h (x ∷ xs) c i = ground (arith, count_up n)

  done_at : (s : State) (n : ℕ) (xs : List Beat) → cost_of s n xs ≡ 0 → xs ≡ []
  done_at copy n [] e = refl
  done_at copy n (x ∷ xs) e = absurd (omega arith)
  done_at waiting n [] e = refl
  done_at waiting n (x ∷ xs) e = absurd (omega arith)

  gap_contract : Contract (gap_step gap bits)
  gap_contract = record {
    Inv = λ l. GapInv l.regs.fsm l.regs.counter;
    spec = λ l. l.left;
    work = work_of;
    keeps = λ l c h. keeps_at l.regs.fsm l.regs.counter l.held l.left c h;
    emits = λ l c h. emits_at l.regs.fsm l.regs.counter l.held l.left c;
    works = λ l c h. works_at l.regs.fsm l.regs.counter l.held l.left c h;
    done = λ l h e. done_at l.regs.fsm l.regs.counter l.left e;
  }

  -- From COPY, with any counter, the beats that pass the gap module are those that it was given, in
  -- order, whatever the stalls, when the willing cycles are as many as the beats and a gap for each
  -- `last`.
  pub run-gap_step :
      (n : ℕ) (xs : List Beat) (cs : List (Cycle Beat))
      → cost gap xs ≤ willing_count cs
      → run (gap_step gap bits) (at copy n false xs) cs ≡ xs
  unfolding gap_contract
  run-gap_step n xs cs enough = run_complete gap_contract (at copy n false xs) cs tt enough

  wait_on :
      (n : ℕ) (h : Bool) (xs : List Beat) (c : Cycle Beat)
      → n + 1 < gap
      → let l = after (gap_step gap bits) (at waiting n h xs) c in l ≡ at waiting (n + 1) l.held xs
  unfolding gap_fsm
  wait_on n h [] c p = ground (arith, count_up n)
  wait_on n h (x ∷ xs) c p = ground (arith, count_up n)

  wait_over :
      (n : ℕ) (h : Bool) (xs : List Beat) (c : Cycle Beat)
      → n + 1 ≡ gap
      → let l = after (gap_step gap bits) (at waiting n h xs) c in
        (l.regs.fsm ≡ copy) × (l.left ≡ xs)
  unfolding gap_fsm
  wait_over n h [] c p = ground arith
  wait_over n h (x ∷ xs) c p = ground arith

  silent :
      (n : ℕ) (h : Bool) (xs : List Beat) (c : Cycle Beat)
      → out (gap_step gap bits) (at waiting n h xs) c ≡ []
  unfolding gap_fsm
  silent n h xs c = refl

  abbrev Waited : List Beat → Line Gap Beat → List (Cycle Beat) → Type 0
  Waited xs l cs =
      (run (gap_step gap bits) l cs ≡ [])
      × ((run_end (gap_step gap bits) l cs).regs.fsm ≡ copy)
      × ((run_end (gap_step gap bits) l cs).left ≡ xs)

  waits :
      (n : ℕ) (h : Bool) (xs : List Beat) (c : Cycle Beat) (cs : List (Cycle Beat))
      → n + suc (length cs) ≡ gap
      → Waited xs (at waiting n h xs) (c ∷ cs)
  unfolding run run_end
  waits n h xs c [] e = let over = wait_over n h xs c e in (rw (silent n h xs c), over.0, over.1)
  waits n h xs c (d ∷ cs) e =
      let l = after (gap_step gap bits) (at waiting n h xs) c in
      let next : l ≡ at waiting (n + 1) l.held xs = wait_on n h xs c (omega arith) in
      let rest : Waited xs l (d ∷ cs) =
        subst (λ m. Waited xs m (d ∷ cs)) (sym next) (waits (n + 1) l.held xs d cs (omega arith)) in
      (rw (silent n h xs c) rest.0, rest.1, rest.2)

  -- After a beat that is `last` has passed the gap module in COPY, nothing passes for `gap` cycles,
  -- whatever the two sides do, and after them the module is in COPY with no further beat taken.
  pub gap_after_last :
      (n : ℕ) (h : Bool) (x : Beat) (xs : List Beat) (c : Cycle Beat) (cs : List (Cycle Beat))
      → x.last ≡ true
      → out (gap_step gap bits) (at copy n h (x ∷ xs)) c ≡ x ∷ []
      → length cs ≡ gap
      → let l = after (gap_step gap bits) (at copy n h (x ∷ xs)) c in
        (run (gap_step gap bits) l cs ≡ [])
        × ((run_end (gap_step gap bits) l cs).regs.fsm ≡ copy)
        × ((run_end (gap_step gap bits) l cs).left ≡ xs)
  unfolding gap_fsm
  gap_after_last n h x xs c [] last passed len = absurd (omega arith)
  gap_after_last n h x xs c (d ∷ cs) last passed len =
      let l = after (gap_step gap bits) (at copy n h (x ∷ xs)) c in
      let entered : l ≡ at waiting 0 l.held xs = ground arith in
      subst (λ m. Waited xs m (d ∷ cs)) (sym entered) (waits 0 l.held xs d cs (omega arith))
