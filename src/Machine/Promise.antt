-- ===== src/Machine/Promise.antt =====
-- What it takes to show that a state machine emits a given sequence, whatever its inputs do.
use mathlib.Core.List.{append_assoc, append-nil}
use liteeth.Prelude.{List, [], ◌∷◌, ◌++◌, ℕ, ◌+◌, ◌-◌, ◌≤◌, ◌≡◌, refl, sym, ap, ◌∙◌, arith}
use liteeth.Machine.{ticks, outs}

-- The inputs that help, counted.
unfoldable pub helps : {I : Type 0} → (I → ℕ) → List I → ℕ
helps help [] = 0
helps help (i ∷ is) = help i + helps help is

-- `spec s` is all that is still to pass, and `work s` bounds the helpful inputs that it takes.
pub record Promise {S I O : Type 0} (step : S → I → S × List O) (help : I → ℕ) : Type 1 where
  pub Inv : S → Type 0
  pub spec : S → List O
  pub work : S → ℕ
  pub keeps : (s : S) (i : I) → Inv s → Inv (step s i).0
  pub emits : (s : S) (i : I) → Inv s → (step s i).1 ++ spec (step s i).0 ≡ spec s
  pub works : (s : S) (i : I) → Inv s → work (step s i).0 ≤ work s - help i
  pub done : (s : S) → Inv s → work s ≡ 0 → spec s ≡ []

module _ {S I O : Type 0} {step : S → I → S × List O} {help : I → ℕ} (k : Promise step help) where
  open k use {Inv, spec, work, keeps, emits, works, done}

  outs_safe : (s : S) (is : List I) → Inv s → outs step s is ++ spec (ticks step s is) ≡ spec s
  unfolding outs ticks
  outs_safe s [] h = refl
  outs_safe s (i ∷ is) h =
      rw append_assoc
        (ap (λ t. (step s i).1 ++ t) (outs_safe (step s i).0 is (keeps s i h)) ∙ emits s i h)

  ticks_Inv : (s : S) (is : List I) → Inv s → Inv (ticks step s is)
  unfolding ticks
  ticks_Inv s [] h = h
  ticks_Inv s (i ∷ is) h = ticks_Inv (step s i).0 is (keeps s i h)

  ticks_work : (s : S) (is : List I) → Inv s → work (ticks step s is) ≤ work s - helps help is
  unfolding ticks helps
  ticks_work s [] h = omega arith
  ticks_work s (i ∷ is) h = omega (arith, works s i h, ticks_work (step s i).0 is (keeps s i h))

  -- With enough helpful inputs, all of it has passed, the state has nothing left, and it is sound.
  pub outs_complete :
      (s : S) (is : List I)
      → Inv s
      → work s ≤ helps help is
      → (outs step s is ≡ spec s) × (work (ticks step s is) ≡ 0) × Inv (ticks step s is)
  outs_complete s is h enough =
      let rest : work (ticks step s is) ≡ 0 = omega (arith, ticks_work s is h) in
      let end = ticks_Inv s is h in
      (
        sym (append-nil _)
            ∙ ap (λ t. outs step s is ++ t) (sym (done _ end rest))
            ∙ outs_safe s is h,
        rest,
        end,
      )
