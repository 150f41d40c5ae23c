-- ===== src/Mac/Padding/Stream.antt =====
-- The padding inserter of liteeth/mac/padding.py, beat by beat.
use native.Mathlib.Nat.{mod-eq_of_lt}
use liteeth.Prelude.{
  ℕ, zero, suc, Bool, true, false, not, ◌+◌, ◌-◌, ◌%◌, ◌^◌, ◌≤◌, ◌<◌, ◌≡◌, refl, ap,
}
use liteeth.Prelude.{List, [], ◌∷◌, ◌++◌, arith, if◌then◌else◌, leb, ◌&&◌}
use liteeth.Stream.{Beat, Cycle, Line, after, out, willing, willing_count, run}
use liteeth.Stream.Contract.{Contract, run_prefix, run_complete}
use liteeth.Mac.Padding.{State, idle, padding, PaddingInserter, zero_beat, pad_fsm, pad_step}

-- `n` zero beats that end a packet.
abbrev pub filling : ℕ → List Beat
filling zero = []
filling (suc zero) = zero_beat true ∷ []
filling (suc (suc n)) = zero_beat false ∷ filling (suc n)

module _ (limit : ℕ) where
  -- The counter is the number of beats of the packet so far.
  abbrev pub padded : ℕ → List Beat → List Beat
  padded n [] = []
  padded n (x ∷ xs) =
      let short = x.last && not (leb limit n) in
      record x { last = if short then false else x.last }
      ∷ ((if short then filling (limit - n) else [])
          ++ padded (if x.last then 0 else (n + 1) % 2 ^ 16) xs)

  abbrev pub cost : ℕ → List Beat → ℕ
  cost n [] = 0
  cost n (x ∷ xs) =
      1 + (if x.last then limit - n else 0) + cost (if x.last then 0 else (n + 1) % 2 ^ 16) xs

  abbrev rest_of : State → ℕ → List Beat → List Beat
  rest_of idle n xs = padded n xs
  rest_of padding n xs = filling (suc (limit - n)) ++ padded 0 xs

  abbrev cost_of : State → ℕ → List Beat → ℕ
  cost_of idle n xs = cost n xs
  cost_of padding n xs = suc (limit - n) + cost 0 xs

  abbrev PaddingInv : State → ℕ → Type 0
  PaddingInv idle n = Unit
  PaddingInv padding n = n ≤ limit

  abbrev pub at : State → ℕ → Bool → List Beat → Line PaddingInserter Beat
  at s n h xs = record { regs = record { fsm = s; counter = n }; held = h; left = xs }

  abbrev spec_of : Line PaddingInserter Beat → List Beat
  spec_of l = rest_of l.regs.fsm l.regs.counter l.left

  abbrev work_of : Line PaddingInserter Beat → ℕ
  work_of l = cost_of l.regs.fsm l.regs.counter l.left

  module _ (small : limit < 2 ^ 16) where
    count_up : (n : ℕ) → n < limit → (n + 1) % 2 ^ 16 ≡ n + 1
    count_up n h = mod-eq_of_lt (omega arith)

    filling-suc :
        (n : ℕ)
        → n < limit
        → filling (suc (limit - n)) ≡ zero_beat false ∷ filling (suc (limit - (n + 1)))
    filling-suc n h =
        let e : limit - n ≡ suc (limit - (n + 1)) = omega arith in ap (λ k. filling (suc k)) e

    filling-last : (n : ℕ) → limit ≤ n → filling (suc (limit - n)) ≡ zero_beat true ∷ []
    filling-last n h = let e : limit - n ≡ 0 = omega arith in ap (λ k. filling (suc k)) e

    filling-next : (n : ℕ) → n < limit → filling (limit - n) ≡ filling (suc (limit - (n + 1)))
    filling-next n h = let e : limit - n ≡ suc (limit - (n + 1)) = omega arith in ap filling e

    keeps_at :
        (s : State) (n : ℕ) (h : Bool) (xs : List Beat) (c : Cycle Beat)
        → PaddingInv s n
        → let l = after (pad_step limit) (at s n h xs) c in PaddingInv l.regs.fsm l.regs.counter
    unfolding pad_fsm
    keeps_at idle n h [] c i = ground arith
    keeps_at idle n h (x ∷ xs) c i = ground (arith, count_up n)
    keeps_at padding n h [] c i = ground (arith, count_up n)
    keeps_at padding n h (x ∷ xs) c i = ground (arith, count_up n)

    emits_at :
        (s : State) (n : ℕ) (h : Bool) (xs : List Beat) (c : Cycle Beat)
        → PaddingInv s n
        → out (pad_step limit) (at s n h xs) c ++ spec_of (after (pad_step limit) (at s n h xs) c)
          ≡ spec_of (at s n h xs)
    unfolding pad_fsm
    emits_at idle n h [] c i = refl
    emits_at idle n h (x ∷ xs) c i = ground (arith, count_up n, filling-next n)
    emits_at padding n h [] c i = ground (arith, count_up n, filling-suc n, filling-last n)
    emits_at padding n h (x ∷ xs) c i = ground (arith, count_up n, filling-suc n, filling-last n)

    works_at :
        (s : State) (n : ℕ) (h : Bool) (xs : List Beat) (c : Cycle Beat)
        → PaddingInv s n
        → work_of (after (pad_step limit) (at s n h xs) c) ≤ work_of (at s n h xs) - willing c
    unfolding pad_fsm
    works_at idle n h [] c i = ground arith
    works_at idle n h (x ∷ xs) c i = ground (arith, count_up n)
    works_at padding n h [] c i = ground (arith, count_up n)
    works_at padding n h (x ∷ xs) c i = ground (arith, count_up n)

    done_at : (s : State) (n : ℕ) (xs : List Beat) → cost_of s n xs ≡ 0 → rest_of s n xs ≡ []
    done_at idle n [] e = refl
    done_at idle n (x ∷ xs) e = absurd (omega arith)
    done_at padding n xs e = absurd (omega arith)

    pad_contract : Contract (pad_step limit)
    pad_contract = record {
      Inv = λ l. PaddingInv l.regs.fsm l.regs.counter;
      spec = spec_of;
      work = work_of;
      keeps = λ l c h. keeps_at l.regs.fsm l.regs.counter l.held l.left c h;
      emits = λ l c h. emits_at l.regs.fsm l.regs.counter l.held l.left c h;
      works = λ l c h. works_at l.regs.fsm l.regs.counter l.held l.left c h;
      done = λ l h e. done_at l.regs.fsm l.regs.counter l.left e;
    }

    pub pad_safe :
        (xs : List Beat) (cs : List (Cycle Beat))
        → (more : List Beat) × (run (pad_step limit) (at idle 0 false xs) cs ++ more ≡ padded 0 xs)
    unfolding pad_contract
    pad_safe xs cs = run_prefix pad_contract (at idle 0 false xs) cs tt

    pub pad_complete :
        (xs : List Beat) (cs : List (Cycle Beat))
        → cost 0 xs ≤ willing_count cs
        → run (pad_step limit) (at idle 0 false xs) cs ≡ padded 0 xs
    unfolding pad_contract
    pad_complete xs cs enough = run_complete pad_contract (at idle 0 false xs) cs tt enough
