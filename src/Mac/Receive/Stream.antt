-- ===== src/Mac/Receive/Stream.antt =====
-- The receiving side of liteeth/mac/core.py, beat by beat.
use liteeth.Prelude.{ℕ, Bool, true, false, not, ◌-◌, ◌≤◌, ◌≡◌, ◌==◌, ◌&&◌, refl, arith}
use liteeth.Prelude.{List, [], ◌∷◌, ◌++◌, length, length-append, if◌then◌else◌}
use liteeth.Stream.{Beat, Cycle, Line, after, out, willing, willing_count, run}
use liteeth.Stream.Contract.{Contract, run_complete}
use liteeth.Stream.Fifo.{popped, first, list_fifo}
use liteeth.Mac.Preamble as Preamble
use liteeth.Mac.Preamble.{CheckerState, hunt, copying}
use liteeth.Mac.Preamble.Check.{is_delimiter}
use liteeth.Mac.Crc.Crc32.{init, engine_next, error, clock}
use liteeth.Mac.Crc.Checker.{State, reset, idle, copy, CrcChecker, check_step, or_error}
use liteeth.Mac.Receive.{chained_step}

abbrev pub depth : ℕ
depth = 5

module _ (junk : Beat) where
  abbrev pub Regs : Type 0
  Regs = CheckerState × CrcChecker (List Beat)

  abbrev pub at : CheckerState → State → List Bool → List Beat → Bool → List Beat → Line Regs Beat
  at p s reg q h xs = record {
    regs = (p, record { fsm = s; reg = reg; fifo = q });
    held = h;
    left = xs;
  }

  -- The beat that `x` pushes out of the queue `q`, if the queue is full.
  abbrev pub passed : List Bool → List Beat → Beat → List Beat
  passed reg q x =
      if length q == 4
      then record (first junk q) {
        last = x.last;
        error = or_error x.error (error 8 reg x.data_word);
      }
        ∷ []
      else []

  abbrev pub pushed : List Beat → Beat → List Beat
  pushed q x = if length q == 4 then popped true q ++ (x ∷ []) else q ++ (x ∷ [])

  -- All that comes out. `fresh` says that the CRC checker has taken no beat since its reset.
  abbrev pub received : CheckerState → Bool → List Bool → List Beat → List Beat → List Beat
  received p fresh reg q [] = []
  received hunt fresh reg q (x ∷ xs) =
      received (if is_delimiter x then copying else hunt) fresh reg q xs
  received copying fresh reg q (x ∷ xs) =
      let resets = x.last && not fresh in
      passed reg q x
      ++ received (if x.last then hunt else copying) resets
          (if resets then init else engine_next 8 reg x.data_word)
          (if resets then [] else pushed q x) xs

  abbrev spec_of : CheckerState → State → List Bool → List Beat → List Beat → List Beat
  spec_of p reset reg q xs = received p true init [] xs
  spec_of p idle reg q xs = received p true reg q xs
  spec_of p copy reg q xs = received p false reg q xs

  abbrev ReceiveInv : CheckerState → State → List Beat → Type 0
  ReceiveInv hunt s q = length q ≤ 4
  ReceiveInv copying reset q = ⊥
  ReceiveInv copying idle q = length q ≤ 4
  ReceiveInv copying copy q = length q ≤ 4

  keeps_at :
      (p : CheckerState) (s : State) (reg : List Bool) (q : List Beat) (h : Bool) (xs : List Beat)
      (c : Cycle Beat)
      → ReceiveInv p s q
      → let l = after (chained_step (list_fifo depth junk)) (at p s reg q h xs) c in
        ReceiveInv l.regs.0 l.regs.1.fsm l.regs.1.fifo
  unfolding check_step Preamble.check_step clock
  keeps_at hunt reset reg q h [] c i = ground arith
  keeps_at hunt reset reg q h (x ∷ xs) c i = ground arith
  keeps_at hunt idle reg [] h [] c i = ground arith
  keeps_at hunt idle reg (y ∷ q) h [] c i = ground arith
  keeps_at hunt idle reg [] h (x ∷ xs) c i = ground arith
  keeps_at hunt idle reg (y ∷ q) h (x ∷ xs) c i = ground arith
  keeps_at hunt copy reg [] h [] c i = ground arith
  keeps_at hunt copy reg (y ∷ q) h [] c i = ground arith
  keeps_at hunt copy reg [] h (x ∷ xs) c i = ground arith
  keeps_at hunt copy reg (y ∷ q) h (x ∷ xs) c i = ground arith
  keeps_at copying reset reg q h xs c i = absurd i
  keeps_at copying idle reg [] h [] c i = ground arith
  keeps_at copying idle reg (y ∷ q) h [] c i = ground arith
  keeps_at copying idle reg [] h (x ∷ xs) c i = ground arith
  keeps_at copying idle reg (y ∷ q) h (x ∷ xs) c i = ground (arith, length-append q (x ∷ []))
  keeps_at copying copy reg [] h [] c i = ground arith
  keeps_at copying copy reg (y ∷ q) h [] c i = ground arith
  keeps_at copying copy reg [] h (x ∷ xs) c i = ground arith
  keeps_at copying copy reg (y ∷ q) h (x ∷ xs) c i = ground (arith, length-append q (x ∷ []))

  emits_at :
      (p : CheckerState) (s : State) (reg : List Bool) (q : List Beat) (h : Bool) (xs : List Beat)
      (c : Cycle Beat)
      → ReceiveInv p s q
      → let l = after (chained_step (list_fifo depth junk)) (at p s reg q h xs) c in
        out (chained_step (list_fifo depth junk)) (at p s reg q h xs) c
          ++ spec_of l.regs.0 l.regs.1.fsm l.regs.1.reg l.regs.1.fifo l.left
        ≡ spec_of p s reg q xs
  unfolding check_step Preamble.check_step clock
  emits_at hunt reset reg [] h [] c i = ground arith
  emits_at hunt reset reg [] h (x ∷ xs) c i = ground arith
  emits_at hunt reset reg (y ∷ q) h [] c i = ground arith
  emits_at hunt reset reg (y ∷ q) h (x ∷ xs) c i = ground arith
  emits_at hunt idle reg [] h [] c i = ground arith
  emits_at hunt idle reg [] h (x ∷ xs) c i = ground arith
  emits_at hunt idle reg (y ∷ q) h [] c i = ground arith
  emits_at hunt idle reg (y ∷ q) h (x ∷ xs) c i = ground arith
  emits_at hunt copy reg [] h [] c i = ground arith
  emits_at hunt copy reg [] h (x ∷ xs) c i = ground arith
  emits_at hunt copy reg (y ∷ q) h [] c i = ground arith
  emits_at hunt copy reg (y ∷ q) h (x ∷ xs) c i = ground arith
  emits_at copying reset reg q h xs c i = absurd i
  emits_at copying idle reg [] h [] c i = ground arith
  emits_at copying idle reg [] h (x ∷ xs) c i = ground arith
  emits_at copying idle reg (y ∷ q) h [] c i = ground arith
  emits_at copying idle reg (y ∷ q) h (x ∷ xs) c i = ground arith
  emits_at copying copy reg [] h [] c i = ground arith
  emits_at copying copy reg [] h (x ∷ xs) c i = ground arith
  emits_at copying copy reg (y ∷ q) h [] c i = ground arith
  emits_at copying copy reg (y ∷ q) h (x ∷ xs) c i = ground arith

  works_at :
      (p : CheckerState) (s : State) (reg : List Bool) (q : List Beat) (h : Bool) (xs : List Beat)
      (c : Cycle Beat)
      → ReceiveInv p s q
      → length (after (chained_step (list_fifo depth junk)) (at p s reg q h xs) c).left
        ≤ length xs - willing c
  unfolding check_step Preamble.check_step
  works_at hunt reset reg [] h [] c i = ground arith
  works_at hunt reset reg [] h (x ∷ xs) c i = ground arith
  works_at hunt reset reg (y ∷ q) h [] c i = ground arith
  works_at hunt reset reg (y ∷ q) h (x ∷ xs) c i = ground arith
  works_at hunt idle reg [] h [] c i = ground arith
  works_at hunt idle reg [] h (x ∷ xs) c i = ground arith
  works_at hunt idle reg (y ∷ q) h [] c i = ground arith
  works_at hunt idle reg (y ∷ q) h (x ∷ xs) c i = ground arith
  works_at hunt copy reg [] h [] c i = ground arith
  works_at hunt copy reg [] h (x ∷ xs) c i = ground arith
  works_at hunt copy reg (y ∷ q) h [] c i = ground arith
  works_at hunt copy reg (y ∷ q) h (x ∷ xs) c i = ground arith
  works_at copying reset reg q h xs c i = absurd i
  works_at copying idle reg [] h [] c i = ground arith
  works_at copying idle reg [] h (x ∷ xs) c i = ground arith
  works_at copying idle reg (y ∷ q) h [] c i = ground arith
  works_at copying idle reg (y ∷ q) h (x ∷ xs) c i = ground arith
  works_at copying copy reg [] h [] c i = ground arith
  works_at copying copy reg [] h (x ∷ xs) c i = ground arith
  works_at copying copy reg (y ∷ q) h [] c i = ground arith
  works_at copying copy reg (y ∷ q) h (x ∷ xs) c i = ground arith

  done_at :
      (p : CheckerState) (s : State) (reg : List Bool) (q xs : List Beat)
      → length xs ≡ 0
      → spec_of p s reg q xs ≡ []
  done_at p reset reg q [] e = refl
  done_at p idle reg q [] e = refl
  done_at p copy reg q [] e = refl
  done_at p s reg q (x ∷ xs) e = absurd (omega arith)

  receive_contract : Contract (chained_step (list_fifo depth junk))
  receive_contract = record {
    Inv = λ l. ReceiveInv l.regs.0 l.regs.1.fsm l.regs.1.fifo;
    spec = λ l. spec_of l.regs.0 l.regs.1.fsm l.regs.1.reg l.regs.1.fifo l.left;
    work = λ l. length l.left;
    keeps = λ l c i. keeps_at l.regs.0 l.regs.1.fsm l.regs.1.reg l.regs.1.fifo l.held l.left c i;
    emits = λ l c i. emits_at l.regs.0 l.regs.1.fsm l.regs.1.reg l.regs.1.fifo l.held l.left c i;
    works = λ l c i. works_at l.regs.0 l.regs.1.fsm l.regs.1.reg l.regs.1.fifo l.held l.left c i;
    done = λ l i e. done_at l.regs.0 l.regs.1.fsm l.regs.1.reg l.regs.1.fifo l.left e;
  }

  pub receive_complete :
      (xs : List Beat) (cs : List (Cycle Beat)) (reg : List Bool) (q : List Beat)
      → length q ≤ 4
      → length xs ≤ willing_count cs
      → run (chained_step (list_fifo depth junk)) (at hunt reset reg q false xs) cs
        ≡ received hunt true init [] xs
  unfolding receive_contract
  receive_complete xs cs reg q small enough =
      run_complete receive_contract (at hunt reset reg q false xs) cs small enough
