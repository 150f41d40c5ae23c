-- ===== src/Frontend/Etherbone/Master/Serve.antt =====
-- The Wishbone operations that the master of liteeth/frontend/etherbone.py does, and its answers.
use liteeth.Prelude.{ℕ, Bool, true, false, ◌-◌, ◌*◌, ◌≤◌, ◌≡◌, refl, ap, sym, ◌∙◌}
use liteeth.Prelude.{if◌then◌else◌, List, [], ◌∷◌, ◌++◌, arith, length, Bool-cases, inl, inr}
use liteeth.Stream.{Line, willing}
use liteeth.Machine.{ticks, outs}
use liteeth.Machine.Promise.{Promise, helps, outs_complete}
use liteeth.Frontend.Etherbone.{Mmap}
use liteeth.Frontend.Etherbone.Master.{State, idle, write_data, read_data, send_data}
use liteeth.Frontend.Etherbone.Master.{Master, Bus, BusCycle, master_fsm}
use liteeth.Frontend.Etherbone.Master.{serve_step}
use liteeth.Frontend.Etherbone.Master.Answers.{answers, effect, after_write, after_read, written}
use liteeth.Frontend.Etherbone.Master.Answers.{write_forgets, read_forgets, idle_forgets}

module _ (bus : Bus) where
  open bus use {Memory}

  abbrev cost_at : State → List Mmap → ℕ
  cost_at s [] = 0
  cost_at idle (x ∷ xs) = 3 * length (x ∷ xs)
  cost_at write_data (x ∷ xs) = 3 * length (x ∷ xs) - 1
  cost_at read_data (x ∷ xs) = 3 * length (x ∷ xs) - 1
  cost_at send_data (x ∷ xs) = 3 * length (x ∷ xs) - 2

  -- In SEND_DATA the payload's registers have the beat that waits.
  abbrev Latched : Master → Mmap → Type 0
  Latched r x =
      (r.base_addr ≡ x.base_addr) × (r.addr ≡ x.addr) × (r.count ≡ x.count) × (r.be ≡ x.be)

  abbrev ServeInv : State → Master → Bool → List Mmap → Type 0
  ServeInv send_data r h [] = ⊥
  ServeInv send_data r h (x ∷ xs) = (h ≡ true) × Latched r x
  ServeInv _ r h xs = Unit

  abbrev pub line_at : State → Master → Memory → Bool → List Mmap → Line (Master × Memory) Mmap
  line_at s r mem h xs = record { regs = (record r { fsm = s }, mem); held = h; left = xs }

  abbrev LineInv : Line (Master × Memory) Mmap → Type 0
  LineInv l = ServeInv l.regs.0.fsm l.regs.0 l.held l.left

  abbrev spec_of : Line (Master × Memory) Mmap → List Mmap
  spec_of l = answers bus l.regs.0.fsm l.regs.0.data_word l.regs.1 l.left

  free_to_write :
      (b : Bool) (r : Master) (h : Bool) (xs : List Mmap)
      → ServeInv (if b then idle else write_data) r h xs
  free_to_write true r h xs = tt
  free_to_write false r h xs = tt

  free_to_read :
      (b : Bool) (r : Master) (h : Bool) (xs : List Mmap)
      → ServeInv (if b then idle else read_data) r h xs
  free_to_read true r h xs = tt
  free_to_read false r h xs = tt

  keeps_at :
      (s : State) (r : Master) (mem : Memory) (h : Bool) (xs : List Mmap) (c : BusCycle bus)
      → ServeInv s r h xs
      → LineInv (serve_step bus (line_at s r mem h xs) c).0
  unfolding master_fsm
  keeps_at idle r mem h [] c i = ground arith
  keeps_at idle r mem h (x ∷ xs) c i = ground arith
  keeps_at write_data r mem h [] c i = ground arith
  keeps_at write_data r mem h (x ∷ xs) c i = free_to_write _ _ _ _
  keeps_at read_data r mem h [] c i = ground arith
  keeps_at read_data r mem h (x ∷ xs) c i = ground arith
  keeps_at send_data r mem h [] c i = absurd i
  keeps_at send_data r mem h (x ∷ xs) c i = elim (Bool-cases c.cycle.ready) [
    | inl y ↦ simp (i.0, y) (free_to_read x.last _ _ _)
    | inr n ↦ simp (i.0, n) (refl, (refl, refl, refl, refl))
  ]

  emits_at :
      (s : State) (r : Master) (mem : Memory) (h : Bool) (xs : List Mmap) (c : BusCycle bus)
      → ServeInv s r h xs
      → (serve_step bus (line_at s r mem h xs) c).1
          ++ spec_of (serve_step bus (line_at s r mem h xs) c).0
        ≡ spec_of (line_at s r mem h xs)
  unfolding master_fsm
  emits_at idle r mem h [] c i = refl
  emits_at idle r mem h (x ∷ xs) c i = ground arith
  emits_at write_data r mem h [] c i = ground arith
  emits_at write_data r mem h (x ∷ xs) c i =
      ground (arith, write_forgets bus x r.data_word (written bus x mem) xs)
  emits_at read_data r mem h [] c i = ground arith
  emits_at read_data r mem h (x ∷ xs) c i = ground arith
  emits_at send_data r mem h [] c i = absurd i
  emits_at send_data r mem h (x ∷ xs) c i = ground (arith, read_forgets bus x r.data_word mem xs)

  effect_of : Line (Master × Memory) Mmap → Memory
  effect_of l = effect bus l.regs.0.fsm l.regs.1 l.left

  same_effect :
      (s : State) (r : Master) (mem : Memory) (h : Bool) (xs : List Mmap) (c : BusCycle bus)
      → effect_of (serve_step bus (line_at s r mem h xs) c).0 ≡ effect_of (line_at s r mem h xs)
  unfolding master_fsm effect_of
  same_effect idle r mem h [] c = refl
  same_effect idle r mem h (x ∷ xs) c = ground arith
  same_effect write_data r mem h [] c = ground arith
  same_effect write_data r mem h (x ∷ xs) c = ground arith
  same_effect read_data r mem h [] c = ground arith
  same_effect read_data r mem h (x ∷ xs) c = ground arith
  same_effect send_data r mem h [] c = ground arith
  same_effect send_data r mem h (x ∷ xs) c = ground arith

  abbrev pub helpful : BusCycle bus → ℕ
  helpful c = if c.ack then willing c.cycle else 0

  work_of : Line (Master × Memory) Mmap → ℕ
  work_of l = cost_at l.regs.0.fsm l.left

  cost_le : (s : State) (xs : List Mmap) → cost_at s xs ≤ 3 * length xs
  cost_le s [] = omega arith
  cost_le idle (x ∷ xs) = omega arith
  cost_le write_data (x ∷ xs) = omega arith
  cost_le read_data (x ∷ xs) = omega arith
  cost_le send_data (x ∷ xs) = omega arith

  works_at :
      (s : State) (r : Master) (mem : Memory) (h : Bool) (xs : List Mmap) (c : BusCycle bus)
      → work_of (serve_step bus (line_at s r mem h xs) c).0
        ≤ work_of (line_at s r mem h xs) - helpful c
  unfolding master_fsm work_of
  works_at idle r mem h [] c = ground arith
  works_at idle r mem h (x ∷ xs) c = ground arith
  works_at write_data r mem h [] c = ground arith
  works_at write_data r mem h (x ∷ xs) c = ground (arith, cost_le (after_write bus x) xs)
  works_at read_data r mem h [] c = ground arith
  works_at read_data r mem h (x ∷ xs) c = ground arith
  works_at send_data r mem h [] c = ground arith
  works_at send_data r mem h (x ∷ xs) c = ground (arith, cost_le (after_read bus x) xs)

  empty_at : (s : State) (xs : List Mmap) → cost_at s xs ≡ 0 → xs ≡ []
  empty_at s [] e = refl
  empty_at idle (x ∷ xs) e = absurd (omega arith)
  empty_at write_data (x ∷ xs) e = absurd (omega arith)
  empty_at read_data (x ∷ xs) e = absurd (omega arith)
  empty_at send_data (x ∷ xs) e = absurd (omega arith)

  nothing_at :
      (s : State) (w : ℕ) (mem : Memory) (xs : List Mmap) → xs ≡ [] → answers bus s w mem xs ≡ []
  nothing_at s w mem xs e = ap (λ ys. answers bus s w mem ys) e

  serve_promise : Memory → Promise (serve_step bus) helpful
  unfolding work_of
  serve_promise final = record {
    Inv = λ l. LineInv l × (effect_of l ≡ final);
    spec = spec_of;
    work = work_of;
    keeps = λ l c i. (
      keeps_at l.regs.0.fsm l.regs.0 l.regs.1 l.held l.left c i.0,
      same_effect l.regs.0.fsm l.regs.0 l.regs.1 l.held l.left c ∙ i.1,
    );
    emits = λ l c i. emits_at l.regs.0.fsm l.regs.0 l.regs.1 l.held l.left c i.0;
    works = λ l c i. works_at l.regs.0.fsm l.regs.0 l.regs.1 l.held l.left c;
    done = λ l i e.
        nothing_at l.regs.0.fsm l.regs.0.data_word l.regs.1 l.left (empty_at l.regs.0.fsm l.left e);
  }

  -- From IDLE
  pub serve_step-answers :
      (r : Master) (mem : Memory) (xs : List Mmap) (cs : List (BusCycle bus))
      → 3 * length xs ≤ helps helpful cs
      → let l = line_at idle r mem false xs in
        (outs (serve_step bus) l cs ≡ answers bus idle 0 mem xs)
        × ((ticks (serve_step bus) l cs).regs.1 ≡ effect bus idle mem xs)
  unfolding serve_promise work_of effect_of
  serve_step-answers r mem xs cs enough =
      let l = line_at idle r mem false xs in
      let all =
        outs_complete (serve_promise (effect bus idle mem xs)) l cs (tt, refl)
          (omega (arith, cost_le idle xs, enough)) in
      let end = ticks (serve_step bus) l cs in
      let none_left : end.left ≡ [] = empty_at end.regs.0.fsm end.left all.1 in
      let settled : effect bus end.regs.0.fsm end.regs.1 end.left ≡ effect bus idle mem xs =
        all.2.1 in
      (
        all.0 ∙ idle_forgets bus r.data_word mem xs,
        sym (ap (λ ys. effect bus end.regs.0.fsm end.regs.1 ys) none_left) ∙ settled,
      )
