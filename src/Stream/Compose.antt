-- ===== src/Stream/Compose.antt =====
-- Two modules in a row, and modules that cannot be told apart from outside.
use liteeth.Prelude.{Bool, false, ◌&&◌, not, ◌≡◌, refl, ap, ap₂, ◌∙◌, List, [], ◌∷◌, ◌++◌}
use liteeth.Stream.{Drive, Step, Cycle, Line, drive, accept, emit, after, run}

-- `f.source.connect(g.sink)`, where what `f` puts on its source does not depend on its `ready`.
abbrev pub compose : {S T A B C : Type 0} → Step S A B → Step T B C → Step (S × T) A C
compose f g (s, t) sink ready =
    let offered = (f s sink false).1.source in
    let (u, right) = g t offered ready in
    let (v, left) = f s sink right.ready in
    ((v, u), record { ready = left.ready; source = right.source })

module _ {S T A B : Type 0} (abs : S → T) (step : Step S A B) (model : Step T A B) where
  -- The same `ready`, the same beats through the source, and states that go on alike.
  abbrev pub Simulates : Type 0
  Simulates =
      (s : S) (d : Drive A) (r : Bool)
      → let (s', w) = step s d r in
        let (t', v) = model (abs s) d r in
        (abs s' ≡ t')
        × (w.ready ≡ v.ready)
        × (emit (w.source.valid && r) w.source.beat ≡ emit (v.source.valid && r) v.source.beat)

  abbrev abs_line : Line S A → Line T A
  abs_line l = record { regs = abs l.regs; held = l.held; left = l.left }

  same_line :
      {t u : T} {a b : Bool}
      → (l : Line S A) (d : Drive A) → t ≡ u
      → a ≡ b
      → ◌≡◌ {A = Line T A}
          (record { regs = t; held = d.valid && not a; left = accept (d.valid && a) l.left })
          (record { regs = u; held = d.valid && not b; left = accept (d.valid && b) l.left })
  same_line l d regs ready =
      ap₂
        (λ (v : T) (c : Bool). record {
          regs = v;
          held = d.valid && not c;
          left = accept (d.valid && c) l.left;
        })
        regs ready

  pub run-Simulates :
      (l : Line S A) (cs : List (Cycle A)) → Simulates → run step l cs ≡ run model (abs_line l) cs
  unfolding run
  run-Simulates l [] sim = refl
  run-Simulates l (c ∷ cs) sim =
      let d = drive l.held c l.left in
      let (regs, ready, beats) = sim l.regs d c.ready in
      ap₂ ◌++◌ beats (
        run-Simulates (after step l c) cs sim ∙ ap (λ m. run model m cs) (same_line l d regs ready))

-- A module may stand for one that it simulates on the right of another.
pub compose-Simulates :
    {S T U A B C : Type 0}
    → (f : Step S A B) (g : Step T B C) (h : Step U B C) (abs : T → U) → Simulates abs g h
    → Simulates (λ (p : S × T). (p.0, abs p.1)) (compose f g) (compose f h)
compose-Simulates f g h abs sim (s, t) d r =
    let offered = (f s d false).1.source in
    let (regs, ready, beats) = sim t offered r in
    (ap₂ (λ u b. ((f s d b).0, u)) regs ready, ap (λ b. (f s d b).1.ready) ready, beats)
