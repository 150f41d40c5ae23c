-- ===== src/Mac/Crc/Inserter/Stream.antt =====
-- The CRC inserter of liteeth/mac/crc.py, beat by beat.
use liteeth.Prelude.{ℕ, zero, suc, Bool, true, false, not, ◌+◌, ◌-◌, ◌≤◌, ◌<◌, ◌≡◌, refl}
use liteeth.Prelude.{List, [], ◌∷◌, ◌++◌, arith, if◌then◌else◌}
use liteeth.Stream.{Beat, Cycle, Line, after, out, willing, willing_count, run}
use liteeth.Stream.Contract.{Contract, run_prefix, run_complete}
use liteeth.Mac.Crc.Crc32.{clock, engine_next, init}
use liteeth.Mac.Crc.Inserter.{
  State, idle, copy, crc, CrcInserter, ratio, crc_beat, insert_fsm, insert_step,
}

abbrev pub open_beat : Beat → Beat
open_beat x = record x { last = false }

module _ (dw : ℕ) where
  -- The words of the CRC from the one at which the counter is `cnt` on.
  abbrev pub crc_beats : List Bool → ℕ → List Beat
  crc_beats reg zero = crc_beat dw reg 0 ∷ []
  crc_beats reg (suc n) = crc_beat dw reg (suc n) ∷ crc_beats reg n

  -- What the beats become when `reg` is the register of those of their packet that have passed.
  abbrev pub sealed : List Bool → List Beat → List Beat
  sealed reg [] = []
  sealed reg (x ∷ xs) =
      let reg' = engine_next dw reg x.data_word in
      open_beat x
      ∷ ((if x.last then crc_beats reg' (ratio dw - 1) else [])
          ++ sealed (if x.last then init else reg') xs)

  abbrev rest_of : State → List Bool → ℕ → List Beat → List Beat
  rest_of idle reg cnt xs = sealed init xs
  rest_of copy reg cnt xs = sealed reg xs
  rest_of crc reg cnt xs = crc_beats reg cnt ++ sealed init xs

  -- IDLE takes a cycle before each packet, and `ratio` cycles go to its CRC.
  abbrev pub cost : Bool → List Beat → ℕ
  cost started [] = 0
  cost started (x ∷ xs) =
      (if started then 1 else 2) + (if x.last then ratio dw else 0) + cost (not x.last) xs

  abbrev cost_of : State → ℕ → List Beat → ℕ
  cost_of idle cnt xs = cost false xs
  cost_of copy cnt xs = cost true xs
  cost_of crc cnt xs = suc cnt + cost false xs

  abbrev InserterInv : State → ℕ → Type 0
  InserterInv copy cnt = cnt ≡ ratio dw - 1
  InserterInv idle cnt = Unit
  InserterInv crc cnt = Unit

  abbrev pub at : State → List Bool → ℕ → Bool → List Beat → Line CrcInserter Beat
  at s reg n h xs = record { regs = record { fsm = s; reg = reg; cnt = n }; held = h; left = xs }

  abbrev spec_of : Line CrcInserter Beat → List Beat
  spec_of l = rest_of l.regs.fsm l.regs.reg l.regs.cnt l.left

  abbrev work_of : Line CrcInserter Beat → ℕ
  work_of l = cost_of l.regs.fsm l.regs.cnt l.left

  module _ (words : 1 < ratio dw) where
    keeps_at :
        (s : State) (reg : List Bool) (n : ℕ) (h : Bool) (xs : List Beat) (c : Cycle Beat)
        → InserterInv s n
        → let l = after (insert_step dw) (at s reg n h xs) c in InserterInv l.regs.fsm l.regs.cnt
    unfolding insert_fsm
    keeps_at idle reg n h [] c i = ground arith
    keeps_at idle reg n h (x ∷ xs) c i = ground arith
    keeps_at copy reg n h [] c i = ground arith
    keeps_at copy reg n h (x ∷ xs) c i = ground arith
    keeps_at crc reg n h xs c i = ground arith

    emits_at :
        (s : State) (reg : List Bool) (n : ℕ) (h : Bool) (xs : List Beat) (c : Cycle Beat)
        → InserterInv s n
        → out (insert_step dw) (at s reg n h xs) c
            ++ spec_of (after (insert_step dw) (at s reg n h xs) c)
          ≡ spec_of (at s reg n h xs)
    unfolding insert_fsm clock
    emits_at idle reg n h [] c i = refl
    emits_at idle reg n h (x ∷ xs) c i = ground arith
    emits_at copy reg n h [] c i = refl
    emits_at copy reg n h (x ∷ xs) c i = ground arith
    emits_at crc reg zero h xs c i = ground arith
    emits_at crc reg (suc n) h xs c i = ground arith

    works_at :
        (s : State) (reg : List Bool) (n : ℕ) (h : Bool) (xs : List Beat) (c : Cycle Beat)
        → InserterInv s n
        → work_of (after (insert_step dw) (at s reg n h xs) c)
          ≤ work_of (at s reg n h xs) - willing c
    unfolding insert_fsm
    works_at idle reg n h [] c i = ground arith
    works_at idle reg n h (x ∷ xs) c i = ground arith
    works_at copy reg n h [] c i = ground arith
    works_at copy reg n h (x ∷ xs) c i = ground arith
    works_at crc reg zero h xs c i = ground arith
    works_at crc reg (suc n) h xs c i = ground arith

    done_at :
        (s : State) (reg : List Bool) (n : ℕ) (xs : List Beat)
        → cost_of s n xs ≡ 0
        → rest_of s reg n xs ≡ []
    done_at idle reg n [] e = refl
    done_at idle reg n (x ∷ xs) e = absurd (omega arith)
    done_at copy reg n [] e = refl
    done_at copy reg n (x ∷ xs) e = absurd (omega arith)
    done_at crc reg n xs e = absurd (omega arith)

    insert_contract : Contract (insert_step dw)
    insert_contract = record {
      Inv = λ l. InserterInv l.regs.fsm l.regs.cnt;
      spec = spec_of;
      work = work_of;
      keeps = λ l c h. keeps_at l.regs.fsm l.regs.reg l.regs.cnt l.held l.left c h;
      emits = λ l c h. emits_at l.regs.fsm l.regs.reg l.regs.cnt l.held l.left c h;
      works = λ l c h. works_at l.regs.fsm l.regs.reg l.regs.cnt l.held l.left c h;
      done = λ l h e. done_at l.regs.fsm l.regs.reg l.regs.cnt l.left e;
    }

    -- From IDLE, whatever the two other registers hold.
    pub insert_safe :
        (reg : List Bool) (n : ℕ) (xs : List Beat) (cs : List (Cycle Beat))
        → (more : List Beat) × (run (insert_step dw) (at idle reg n false xs) cs ++ more
            ≡ sealed init xs)
    unfolding insert_contract
    insert_safe reg n xs cs = run_prefix insert_contract (at idle reg n false xs) cs tt

    pub insert_complete :
        (reg : List Bool) (n : ℕ) (xs : List Beat) (cs : List (Cycle Beat))
        → cost false xs ≤ willing_count cs
        → run (insert_step dw) (at idle reg n false xs) cs ≡ sealed init xs
    unfolding insert_contract
    insert_complete reg n xs cs enough =
        run_complete insert_contract (at idle reg n false xs) cs tt enough
