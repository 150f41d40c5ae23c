-- ===== src/Stream.antt =====
-- The stream endpoints that the cores of liteeth/ connect, one clock cycle at a time. A module is a
-- function from its registers, the forward signals of its sink and the `ready` of its source to
-- the next registers and the signals that it drives.
pub mod Contract
pub mod Packets
pub mod Fifo
pub mod Buffer
pub mod Compose
use liteeth.Prelude.{Bool, true, false, List, [], ◌∷◌, ◌&&◌, ◌||◌, not, ◌++◌, if◌then◌else◌, ℕ, ◌+◌}

-- What an endpoint's driver puts on it. The beat is there when `valid` is low, too.
pub record Drive (A : Type 0) : Type 0 where
  pub valid : Bool
  pub beat : A

-- What a module drives on a cycle: the `ready` of its sink, and its source.
pub record Wires (B : Type 0) : Type 0 where
  pub ready : Bool
  pub source : Drive B

abbrev pub wires : {B : Type 0} → Bool → Bool → B → Wires B
wires ready valid beat = record { ready = ready; source = record { valid = valid; beat = beat } }

abbrev pub Step : Type 0 → Type 0 → Type 0 → Type 0
Step S A B = S → Drive A → Bool → S × Wires B

-- A beat of `eth_phy_description`; `last` stands with the endpoint's payload.
pub record Beat : Type 0 where
  pub last : Bool
  pub data_word : ℕ
  pub last_be : ℕ
  pub error : ℕ

-- What the surroundings do on a cycle: the upstream module puts its next beat on the wires or not
-- (then they hold `rest`), and the downstream module is ready or not.
pub record Cycle (A : Type 0) : Type 0 where
  pub offer : Bool
  pub ready : Bool
  pub rest : A

module _ {A : Type 0} where
  -- A beat that was offered and not taken is `held`: it stays until the sink takes it.
  abbrev pub drive : Bool → Cycle A → List A → Drive A
  drive held c [] = record { valid = false; beat = c.rest }
  drive held c (x ∷ xs) =
      if held || c.offer
      then record { valid = true; beat = x }
      else record { valid = false; beat = c.rest }

  -- The beats left upstream: one is gone where `valid` and `ready` are high.
  abbrev pub accept : Bool → List A → List A
  accept taken [] = []
  accept taken (x ∷ xs) = if taken then xs else x ∷ xs

  -- The beat that passes the source, if one does.
  abbrev pub emit : Bool → A → List A
  emit taken x = if taken then x ∷ [] else []

-- A cycle on which both sides are willing.
abbrev pub willing : {A : Type 0} → Cycle A → ℕ
willing c = if c.offer && c.ready then 1 else 0

unfoldable pub willing_count : {A : Type 0} → List (Cycle A) → ℕ
willing_count [] = 0
willing_count (c ∷ cs) = willing c + willing_count cs

-- The registers of a module, with what is upstream of it.
pub record Line (S A : Type 0) : Type 0 where
  pub regs : S
  pub held : Bool
  pub left : List A

abbrev pub line : {S A : Type 0} → S → List A → Line S A
line s xs = record { regs = s; held = false; left = xs }

module _ {S A B : Type 0} (step : Step S A B) where
  abbrev pub after : Line S A → Cycle A → Line S A
  after l c =
      let d = drive l.held c l.left in
      let (s, w) = step l.regs d c.ready in
      record { regs = s; held = d.valid && not w.ready; left = accept (d.valid && w.ready) l.left }

  abbrev pub out : Line S A → Cycle A → List B
  out l c =
      let w = (step l.regs (drive l.held c l.left) c.ready).1 in
      emit (w.source.valid && c.ready) w.source.beat

  -- All beats that pass the source over a schedule.
  unfoldable pub run : Line S A → List (Cycle A) → List B
  run l [] = []
  run l (c ∷ cs) = out l c ++ run (after l c) cs

  unfoldable pub run_end : Line S A → List (Cycle A) → Line S A
  run_end l [] = l
  run_end l (c ∷ cs) = run_end (after l c) cs
