-- ===== src/Stream/Buffer.antt =====
-- `stream.Buffer` of LiteX, a register for one beat, as `BufferizeEndpoints` puts it at an endpoint:
-- an interface, its laws, and an instance.
use liteeth.Prelude.{Bool, ◌||◌, not, ◌≡◌, refl, if◌then◌else◌}
use liteeth.Stream.{Drive, Step}

pub record Buffer (A : Type 0) : Type 1 where
  pub Carrier : Type 0
  pub clock : Step Carrier A A

-- It is ready when it is empty or its beat leaves; then it takes what its sink has.
abbrev pub loads : {A : Type 0} → Drive A → Bool → Bool
loads d ready = not d.valid || ready

pub record BufferLaws {A : Type 0} (b : Buffer A) : Type 0 where
  pub held : b.Carrier → Drive A
  pub source-held :
      (c : b.Carrier) (d : Drive A) (ready : Bool) → (b.clock c d ready).1.source ≡ held c
  pub ready-held :
      (c : b.Carrier) (d : Drive A) (ready : Bool)
      → (b.clock c d ready).1.ready ≡ loads (held c) ready
  pub held-clock :
      (c : b.Carrier) (d : Drive A) (ready : Bool)
      → held (b.clock c d ready).0 ≡ (if loads (held c) ready then d else held c)

abbrev pub one_beat : {A : Type 0} → Buffer A
one_beat {A} = record {
  Carrier = Drive A;
  clock =
      λ c d ready. (if loads c ready then d else c, record { ready = loads c ready; source = c });
}

abbrev pub one_beat_laws : {A : Type 0} → BufferLaws (one_beat {A = A})
one_beat_laws = record {
  held = λ c. c;
  source-held = λ c d ready. refl;
  ready-held = λ c d ready. refl;
  held-clock = λ c d ready. refl;
}
