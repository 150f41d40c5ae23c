-- ===== src/Machine.antt =====
-- Runs of a state machine whose clock cycles are functions of its registers and its inputs, for the
-- modules whose sinks or sources have no handshake.
pub mod Promise
use mathlib.Core.List.{append_assoc, append-nil}
use liteeth.Prelude.{List, [], ◌∷◌, ◌++◌, ◌≡◌, refl, ap, ap₂, ◌∙◌, sym}

module _ {S I O : Type 0} (step : S → I → S × List O) where
  -- The registers after a schedule of inputs.
  unfoldable pub ticks : S → List I → S
  ticks s [] = s
  ticks s (c ∷ cs) = ticks (step s c).0 cs

  -- What passes out of it in the meantime.
  unfoldable pub outs : S → List I → List O
  outs s [] = []
  outs s (c ∷ cs) = (step s c).1 ++ outs (step s c).0 cs

  -- The schedule takes `s` to `s'`, and `os` passes.
  pub record Leads (s : S) (cs : List I) (s' : S) (os : List O) : Type 0 where
    pub reaches : ticks s cs ≡ s'
    pub passes : outs s cs ≡ os

  pub Leads-nil : (s : S) → Leads s [] s []
  unfolding ticks outs
  Leads-nil s = record { reaches = refl; passes = refl }

  pub Leads-on :
      {s s' s'' : S} {c : I} {cs : List I} {o os : List O}
      → step s c ≡ (s', o)
      → Leads s' cs s'' os
      → Leads s (c ∷ cs) s'' (o ++ os)
  unfolding ticks outs
  Leads-on {c} {cs} {o} e h = record {
    reaches = ap (λ r. ticks r.0 cs) e ∙ h.reaches;
    passes = ap (λ r. r.1 ++ outs r.0 cs) e ∙ ap (λ t. o ++ t) h.passes;
  }

  pub ticks-append : (s : S) (cs ds : List I) → ticks s (cs ++ ds) ≡ ticks (ticks s cs) ds
  unfolding ticks
  ticks-append s [] ds = refl
  ticks-append s (c ∷ cs) ds = ticks-append (step s c).0 cs ds

  pub outs-append : (s : S) (cs ds : List I) → outs s (cs ++ ds) ≡ outs s cs ++ outs (ticks s cs) ds
  unfolding ticks outs
  outs-append s [] ds = refl
  outs-append s (c ∷ cs) ds =
      let rest = outs-append (step s c).0 cs ds in
      rw append_assoc (ap (λ t. (step s c).1 ++ t) rest)

  pub Leads-append :
      {s s' s'' : S} {cs ds : List I} {os more : List O}
      → Leads s cs s' os
      → Leads s' ds s'' more
      → Leads s (cs ++ ds) s'' (os ++ more)
  Leads-append {s} {cs} {ds} {os} h k = record {
    reaches = ticks-append s cs ds ∙ ap (λ r. ticks r ds) h.reaches ∙ k.reaches;
    passes =
        outs-append s cs ds
        ∙ ap₂ (λ a r. a ++ outs r ds) h.passes h.reaches
        ∙ ap (λ t. os ++ t) k.passes;
  }

  pub Leads-first :
      {s s' s'' : S} {c : I} {cs : List I} {o : List O}
      → step s c ≡ (s', o)
      → Leads s' cs s'' []
      → Leads s (c ∷ cs) s'' o
  Leads-first {s} {s''} {c} {cs} {o} e h =
      let led : Leads s (c ∷ cs) s'' (o ++ []) = Leads-on e h in
      record { reaches = led.reaches; passes = led.passes ∙ append-nil o }
