-- ===== src/Stream/Contract.antt =====
-- What it takes to show that a stream module computes a function of its input, under every stall.
use mathlib.Core.List.{append_assoc, append-nil}
use liteeth.Prelude.{List, [], ◌∷◌, ◌++◌, ℕ, ◌-◌, ◌≤◌, ◌≡◌, refl, sym, ap, ◌∙◌, arith}
use liteeth.Stream.{Step, Cycle, Line, after, out, willing, willing_count, run, run_end}

-- `spec l` is all that a module has still to emit for what is upstream, and `work l` bounds the
-- willing cycles that it takes.
pub record Contract {S A B : Type 0} (step : Step S A B) : Type 1 where
  pub Inv : Line S A → Type 0
  pub spec : Line S A → List B
  pub work : Line S A → ℕ
  pub keeps : (l : Line S A) (c : Cycle A) → Inv l → Inv (after step l c)
  pub emits : (l : Line S A) (c : Cycle A) → Inv l → out step l c ++ spec (after step l c) ≡ spec l
  pub works : (l : Line S A) (c : Cycle A) → Inv l → work (after step l c) ≤ work l - willing c
  pub done : (l : Line S A) → Inv l → work l ≡ 0 → spec l ≡ []

module _ {S A B : Type 0} {step : Step S A B} (k : Contract step) where
  open k use {Inv, spec, work, keeps, emits, works, done}

  -- Nothing but the reference's beats passes the source, in its order, whatever the stalls.
  pub run_safe :
      (l : Line S A) (cs : List (Cycle A))
      → Inv l
      → run step l cs ++ spec (run_end step l cs) ≡ spec l
  unfolding run run_end
  run_safe l [] h = refl
  run_safe l (c ∷ cs) h =
      rw append_assoc
        (ap (λ t. out step l c ++ t) (run_safe (after step l c) cs (keeps l c h)) ∙ emits l c h)

  -- What has passed is a prefix of the reference.
  pub run_prefix :
      (l : Line S A) (cs : List (Cycle A))
      → Inv l
      → (more : List B) × (run step l cs ++ more ≡ spec l)
  run_prefix l cs h = (spec (run_end step l cs), run_safe l cs h)

  run_Inv : (l : Line S A) (cs : List (Cycle A)) → Inv l → Inv (run_end step l cs)
  unfolding run_end
  run_Inv l [] h = h
  run_Inv l (c ∷ cs) h = run_Inv (after step l c) cs (keeps l c h)

  run_work :
      (l : Line S A) (cs : List (Cycle A))
      → Inv l
      → work (run_end step l cs) ≤ work l - willing_count cs
  unfolding run_end willing_count
  run_work l [] h = omega arith
  run_work l (c ∷ cs) h = omega (arith, works l c h, run_work (after step l c) cs (keeps l c h))

  pub run_worked :
      (l : Line S A) (cs : List (Cycle A))
      → Inv l
      → work l ≤ willing_count cs
      → work (run_end step l cs) ≡ 0
  run_worked l cs h enough = omega (arith, run_work l cs h)

  -- With enough willing cycles, spread in any way over the schedule, all of it has passed.
  pub run_complete :
      (l : Line S A) (cs : List (Cycle A))
      → Inv l
      → work l ≤ willing_count cs
      → run step l cs ≡ spec l
  run_complete l cs h enough =
      sym (append-nil _) ∙ ap (λ t. run step l cs ++ t) (sym nothing_left) ∙ run_safe l cs h
    where
      nothing_left : spec (run_end step l cs) ≡ []
      nothing_left = done _ (run_Inv l cs h) (omega (arith, run_work l cs h))
