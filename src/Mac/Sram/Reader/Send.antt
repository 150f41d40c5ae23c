-- ===== src/Mac/Sram/Reader/Send.antt =====
-- The frames that the reader of liteeth/mac/sram.py sends for the commands it is given.
use native.Mathlib.Nat.{mod-eq_of_lt, zero-mod}
use liteeth.Prelude.{ℕ, zero, suc, Bool, true, false, ◌+◌, ◌-◌, ◌*◌, ◌/◌, ◌%◌, ◌^◌, ◌≤◌, ◌<◌, ◌≡◌}
use liteeth.Prelude.{List, [], ◌∷◌, ◌++◌, arith, refl, ◌==◌, leb}
use liteeth.Stream.{Beat, Cycle, Line, after, out, willing, willing_count, run}
use liteeth.Stream.Contract.{Contract, run_complete}
use liteeth.Mac.Sram.{Slot, Mems, word_adr}
use liteeth.Mac.Sram.Reader.{
  State, idle, send, end_state, Reader, source_beat, read_fsm, read_step, less_word,
}

-- The number of words that a length takes; none is sent in less than one.
abbrev pub words : ℕ → ℕ
words length = (length - 1) / 4 + 1

module _ (big : Bool) (mems : Mems) (lengthbits adr_bits : ℕ) where
  -- `n` words from the `k`-th on, the last of them marked.
  abbrev pub sent_from : ℕ → ℕ → Slot → List Beat
  sent_from k zero cmd = []
  sent_from k (suc n) cmd =
      source_beat big mems lengthbits adr_bits (n == 0) cmd (word_adr adr_bits (4 * k))
      ∷ sent_from (k + 1) n cmd

  abbrev pub sent : Slot → List Beat
  sent cmd = sent_from 0 (words cmd.length) cmd

  abbrev pub all_sent : List Slot → List Beat
  all_sent [] = []
  all_sent (x ∷ xs) = sent x ++ all_sent xs

  abbrev pub cost : List Slot → ℕ
  cost [] = 0
  cost (x ∷ xs) = words x.length + 2 + cost xs

  abbrev pub Fit : List Slot → Type 0
  Fit [] = Unit
  Fit (x ∷ xs) = (4 ≤ x.length) × (x.length < 2 ^ lengthbits) × Fit xs

  abbrev pub at : State → ℕ → ℕ → Bool → List Slot → Line Reader Slot
  at s k adr h xs = record {
    regs = record { fsm = s; counter = k; adr = adr };
    held = h;
    left = xs;
  }

  abbrev spec_at : State → ℕ → List Slot → List Beat
  spec_at idle k xs = all_sent xs
  spec_at send k [] = []
  spec_at send k (x ∷ xs) = sent_from (k / 4) (words x.length - k / 4) x ++ all_sent xs
  spec_at end_state k [] = []
  spec_at end_state k (x ∷ xs) = all_sent xs

  abbrev cost_at : State → ℕ → List Slot → ℕ
  cost_at idle k xs = cost xs
  cost_at send k [] = 0
  cost_at send k (x ∷ xs) = words x.length - k / 4 + 1 + cost xs
  cost_at end_state k [] = 0
  cost_at end_state k (x ∷ xs) = 1 + cost xs

  abbrev ReadInv : State → ℕ → ℕ → Bool → List Slot → Type 0
  ReadInv idle k adr h xs = Fit xs
  ReadInv send k adr h [] = ⊥
  ReadInv send k adr h (x ∷ xs) =
      (h ≡ true)
      × (k % 4 ≡ 0)
      × (k / 4 < words x.length)
      × (adr ≡ word_adr adr_bits k)
      × Fit (x ∷ xs)
  ReadInv end_state k adr h [] = ⊥
  ReadInv end_state k adr h (x ∷ xs) = (h ≡ true) × Fit xs

  abbrev LineInv : Line Reader Slot → Type 0
  LineInv l = ReadInv l.regs.fsm l.regs.counter l.regs.adr l.held l.left

  abbrev spec_of : Line Reader Slot → List Beat
  spec_of l = spec_at l.regs.fsm l.regs.counter l.left

  abbrev work_of : Line Reader Slot → ℕ
  work_of l = cost_at l.regs.fsm l.regs.counter l.left

  count_on_eq :
      (k : ℕ) (x : Slot)
      → k % 4 ≡ 0
      → k / 4 + 1 < words x.length
      → x.length < 2 ^ lengthbits
      → (k + 4) % 2 ^ lengthbits ≡ k + 4
  count_on_eq k x four more fit = mod-eq_of_lt (omega arith)

  less_word-eq :
      (x : Slot) → 4 ≤ x.length → less_word big mems lengthbits adr_bits x.length ≡ x.length - 4
  unfolding less_word
  less_word-eq x h = ground arith

  zero_adr : word_adr adr_bits 0 ≡ 0
  zero_adr = zero-mod (2 ^ adr_bits)

  last_eq :
      (k : ℕ) (x : Slot)
      → k % 4 ≡ 0
      → k / 4 < words x.length
      → leb (x.length - 4) k ≡ (words x.length - (k / 4 + 1) == 0)
  last_eq k x four more = ground arith

  sent_from_lt :
      (k : ℕ) (x : Slot)
      → k % 4 ≡ 0
      → k / 4 < words x.length
      → sent_from (k / 4) (words x.length - k / 4) x
        ≡ source_beat big mems lengthbits adr_bits (leb (x.length - 4) k) x (word_adr adr_bits k)
          ∷ sent_from (k / 4 + 1) (words x.length - (k / 4 + 1)) x
  sent_from_lt k x four more =
      let e : words x.length - k / 4 ≡ suc (words x.length - (k / 4 + 1)) = omega arith in
      let back : 4 * (k / 4) ≡ k = omega arith in rw e (rw back (rw (last_eq k x four more) refl))

  sent_over :
      (k : ℕ) (x : Slot)
      → k % 4 ≡ 0
      → leb (x.length - 4) k ≡ true
      → sent_from (k / 4 + 1) (words x.length - (k / 4 + 1)) x ≡ []
  sent_over k x four last = let e : words x.length - (k / 4 + 1) ≡ 0 = ground arith in rw e refl

  keeps_at :
      (s : State) (k adr : ℕ) (h : Bool) (xs : List Slot) (c : Cycle Slot)
      → ReadInv s k adr h xs
      → LineInv (after (read_step big mems lengthbits adr_bits) (at s k adr h xs) c)
  unfolding read_fsm
  keeps_at idle k adr h [] c i = ground arith
  keeps_at idle k adr h (x ∷ xs) c i = ground (arith, zero_adr)
  keeps_at send k adr h [] c i = absurd i
  keeps_at send k adr h (x ∷ xs) c i = ground (arith, count_on_eq k x, less_word-eq x)
  keeps_at end_state k adr h [] c i = absurd i
  keeps_at end_state k adr h (x ∷ xs) c i = ground arith

  emits_at :
      (s : State) (k adr : ℕ) (h : Bool) (xs : List Slot) (c : Cycle Slot)
      → ReadInv s k adr h xs
      → out (read_step big mems lengthbits adr_bits) (at s k adr h xs) c
          ++ spec_of (after (read_step big mems lengthbits adr_bits) (at s k adr h xs) c)
        ≡ spec_of (at s k adr h xs)
  unfolding read_fsm
  emits_at idle k adr h [] c i = ground arith
  emits_at idle k adr h (x ∷ xs) c i = ground arith
  emits_at send k adr h [] c i = absurd i
  emits_at send k adr h (x ∷ xs) c i =
      ground (arith, sent_from_lt k x, sent_over k x, count_on_eq k x, less_word-eq x)
  emits_at end_state k adr h [] c i = absurd i
  emits_at end_state k adr h (x ∷ xs) c i = ground arith

  works_at :
      (s : State) (k adr : ℕ) (h : Bool) (xs : List Slot) (c : Cycle Slot)
      → ReadInv s k adr h xs
      → work_of (after (read_step big mems lengthbits adr_bits) (at s k adr h xs) c)
        ≤ work_of (at s k adr h xs) - willing c
  unfolding read_fsm
  works_at idle k adr h [] c i = ground arith
  works_at idle k adr h (x ∷ xs) c i = ground arith
  works_at send k adr h [] c i = absurd i
  works_at send k adr h (x ∷ xs) c i = ground (arith, count_on_eq k x, less_word-eq x)
  works_at end_state k adr h [] c i = absurd i
  works_at end_state k adr h (x ∷ xs) c i = ground arith

  done_at :
      (s : State) (k adr : ℕ) (h : Bool) (xs : List Slot)
      → ReadInv s k adr h xs
      → work_of (at s k adr h xs) ≡ 0
      → spec_of (at s k adr h xs) ≡ []
  done_at idle k adr h [] i e = refl
  done_at idle k adr h (x ∷ xs) i e = absurd (omega arith)
  done_at send k adr h [] i e = absurd i
  done_at send k adr h (x ∷ xs) i e = absurd (omega arith)
  done_at end_state k adr h [] i e = absurd i
  done_at end_state k adr h (x ∷ xs) i e = absurd (omega arith)

  read_contract : Contract (read_step big mems lengthbits adr_bits)
  read_contract = record {
    Inv = LineInv;
    spec = spec_of;
    work = work_of;
    keeps = λ l c i. keeps_at l.regs.fsm l.regs.counter l.regs.adr l.held l.left c i;
    emits = λ l c i. emits_at l.regs.fsm l.regs.counter l.regs.adr l.held l.left c i;
    works = λ l c i. works_at l.regs.fsm l.regs.counter l.regs.adr l.held l.left c i;
    done = λ l i e. done_at l.regs.fsm l.regs.counter l.regs.adr l.held l.left i e;
  }

  pub run-read_step :
      (k adr : ℕ) (xs : List Slot) (cs : List (Cycle Slot))
      → Fit xs
      → cost xs ≤ willing_count cs
      → run (read_step big mems lengthbits adr_bits) (at idle k adr false xs) cs ≡ all_sent xs
  unfolding read_contract
  run-read_step k adr xs cs fit enough =
      run_complete read_contract (at idle k adr false xs) cs fit enough
