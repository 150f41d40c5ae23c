-- ===== src/Mac/Preamble/Insert.antt =====
-- The preamble inserter of liteeth/mac/preamble.py, beat by beat.
use native.Mathlib.Nat.{mod-eq_of_lt}
use liteeth.Prelude.{ℕ, zero, suc, Bool, true, false, ◌+◌, ◌-◌, ◌/◌, ◌%◌, ◌^◌, ◌≤◌, ◌<◌, ◌≡◌}
use liteeth.Prelude.{List, [], ◌∷◌, ◌++◌, arith, refl, ap, not}
use liteeth.Stream.{Beat, Cycle, Line, after, out, willing, willing_count, run}
use liteeth.Stream.Contract.{Contract, run_prefix, run_complete}
use liteeth.Mac.Preamble.{InserterState, idle, preamble, copy, Inserter, preamble_word}
use liteeth.Mac.Preamble.{insert_fsm, insert_step}

module _ (dw : ℕ) where
  abbrev pub preamble_beat : ℕ → Beat → Beat
  preamble_beat k x = record {
    last = false;
    data_word = preamble_word dw k;
    last_be = x.last_be;
    error = 0;
  }

  -- `n` words of the preamble from index `k` on, over the `last_be` wires of the beat behind it.
  abbrev pub preamble_from : ℕ → ℕ → Beat → List Beat
  preamble_from k zero x = []
  preamble_from k (suc n) x = preamble_beat k x ∷ preamble_from (k + 1) n x

  -- What the packets `xs` become; the flag tells that the first of them has had its preamble.
  abbrev pub framed : Bool → List Beat → List Beat
  framed started [] = []
  framed false (x ∷ xs) = preamble_from 0 (64 / dw) x ++ (x ∷ framed (not x.last) xs)
  framed true (x ∷ xs) = x ∷ framed (not x.last) xs

  abbrev rest_of : InserterState → ℕ → List Beat → List Beat
  rest_of idle count xs = framed false xs
  rest_of preamble count [] = []
  rest_of preamble count (x ∷ xs) = preamble_from count (64 / dw - count) x ++ framed true (x ∷ xs)
  rest_of copy count xs = framed true xs

  abbrev pub cost : Bool → List Beat → ℕ
  cost started [] = 0
  cost false (x ∷ xs) = 64 / dw + 2 + cost (not x.last) xs
  cost true (x ∷ xs) = 1 + cost (not x.last) xs

  abbrev cost_of : InserterState → ℕ → List Beat → ℕ
  cost_of idle count xs = cost false xs
  cost_of preamble count xs = 64 / dw - count + cost true xs
  cost_of copy count xs = cost true xs

  abbrev InserterInv : InserterState → ℕ → Bool → List Beat → Type 0
  InserterInv preamble count held [] = ⊥
  InserterInv preamble count held (x ∷ xs) = (held ≡ true) × (count < 64 / dw)
  InserterInv idle count held xs = Unit
  InserterInv copy count held xs = Unit

  abbrev LineInv : Line Inserter Beat → Type 0
  LineInv l = InserterInv l.regs.fsm l.regs.count l.held l.left

  module _ (bits : ℕ) (some_words : 0 < 64 / dw) (fits : 64 / dw ≤ 2 ^ bits) where
    keeps_at :
        (s : InserterState) (n : ℕ) (h : Bool) (xs : List Beat) (c : Cycle Beat)
        → InserterInv s n h xs
        → LineInv (
            after
              (insert_step dw bits)
              (record { regs = record { fsm = s; count = n }; held = h; left = xs })
              c)
    unfolding insert_fsm
    keeps_at idle n h [] c i = ground arith
    keeps_at idle n h (x ∷ xs) c i = ground arith
    keeps_at preamble n h [] c i = absurd i
    keeps_at preamble n h (x ∷ xs) c i = ground arith
    keeps_at copy n h [] c i = tt
    keeps_at copy n h (x ∷ xs) c i = ground arith

    abbrev pub at : InserterState → ℕ → Bool → List Beat → Line Inserter Beat
    at s n h xs = record { regs = record { fsm = s; count = n }; held = h; left = xs }

    abbrev spec_of : Line Inserter Beat → List Beat
    spec_of l = rest_of l.regs.fsm l.regs.count l.left

    abbrev work_of : Line Inserter Beat → ℕ
    work_of l = cost_of l.regs.fsm l.regs.count l.left

    preamble_from_lt :
        (n : ℕ) (x : Beat)
        → n < 64 / dw
        → preamble_from n (64 / dw - n) x
          ≡ preamble_beat n x ∷ preamble_from (n + 1) (64 / dw - (n + 1)) x
    preamble_from_lt n x h =
        let e : 64 / dw - n ≡ suc (64 / dw - (n + 1)) = omega arith in
        ap (λ k. preamble_from n k x) e

    next_count : (n : ℕ) → n + 1 < 64 / dw → (n + 1) % 2 ^ bits ≡ n + 1
    next_count n h = mod-eq_of_lt (omega arith)

    emits_at :
        (s : InserterState) (n : ℕ) (h : Bool) (xs : List Beat) (c : Cycle Beat)
        → InserterInv s n h xs
        → out (insert_step dw bits) (at s n h xs) c
            ++ spec_of (after (insert_step dw bits) (at s n h xs) c)
          ≡ spec_of (at s n h xs)
    unfolding insert_fsm
    emits_at idle n h [] c i = refl
    emits_at idle n h (x ∷ xs) c i = ground arith
    emits_at preamble n h [] c i = absurd i
    emits_at preamble n h (x ∷ xs) c i = ground (arith, preamble_from_lt n x, next_count n)
    emits_at copy n h [] c i = refl
    emits_at copy n h (x ∷ xs) c i = ground arith

    works_at :
        (s : InserterState) (n : ℕ) (h : Bool) (xs : List Beat) (c : Cycle Beat)
        → InserterInv s n h xs
        → work_of (after (insert_step dw bits) (at s n h xs) c) ≤ work_of (at s n h xs) - willing c
    unfolding insert_fsm
    works_at idle n h [] c i = ground arith
    works_at idle n h (x ∷ xs) c i = ground arith
    works_at preamble n h [] c i = absurd i
    works_at preamble n h (x ∷ xs) c i = ground (arith, next_count n)
    works_at copy n h [] c i = ground arith
    works_at copy n h (x ∷ xs) c i = ground arith

    done_at :
        (s : InserterState) (n : ℕ) (h : Bool) (xs : List Beat)
        → InserterInv s n h xs
        → work_of (at s n h xs) ≡ 0
        → spec_of (at s n h xs) ≡ []
    done_at idle n h [] i e = refl
    done_at idle n h (x ∷ xs) i e = absurd (omega arith)
    done_at preamble n h [] i e = absurd i
    done_at preamble n h (x ∷ xs) i e = absurd (omega arith)
    done_at copy n h [] i e = refl
    done_at copy n h (x ∷ xs) i e = absurd (omega arith)

    insert_contract : Contract (insert_step dw bits)
    insert_contract = record {
      Inv = LineInv;
      spec = spec_of;
      work = work_of;
      keeps = λ l c h. keeps_at l.regs.fsm l.regs.count l.held l.left c h;
      emits = λ l c h. emits_at l.regs.fsm l.regs.count l.held l.left c h;
      works = λ l c h. works_at l.regs.fsm l.regs.count l.held l.left c h;
      done = λ l h e. done_at l.regs.fsm l.regs.count l.held l.left h e;
    }

    pub insert_safe :
        (xs : List Beat) (cs : List (Cycle Beat))
        → (more : List Beat) × (run (insert_step dw bits) (at idle 0 false xs) cs ++ more
            ≡ framed false xs)
    unfolding insert_contract
    insert_safe xs cs = run_prefix insert_contract (at idle 0 false xs) cs tt

    pub insert_complete :
        (xs : List Beat) (cs : List (Cycle Beat))
        → cost false xs ≤ willing_count cs
        → run (insert_step dw bits) (at idle 0 false xs) cs ≡ framed false xs
    unfolding insert_contract
    insert_complete xs cs enough = run_complete insert_contract (at idle 0 false xs) cs tt enough
