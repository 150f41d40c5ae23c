-- ===== src/Phy/Pcs/Autoneg/Silence.antt =====
-- A silent partner takes the link of liteeth/phy/pcs_1000basex.py down, within two check periods.
use liteeth.Prelude.{ℕ, Bool, true, false, ◌+◌, ◌*◌, ◌≤◌, ◌<◌, ◌≡◌, refl, ◌&&◌, not}
use liteeth.Prelude.{List, [], ◌∷◌, length, arith, dec_lt}
use liteeth.Machine.{ticks}
use liteeth.Phy.Pcs.Autoneg.{State, wait_abi, wait_ack, send_more_ack, running}
use liteeth.Phy.Pcs.Autoneg.{Autoneg, Inputs, autoneg_step, at}

-- Neither a configuration word nor an idle is seen, and no ability match.
abbrev pub is_silent : Inputs → Bool
is_silent i = not i.seen_valid_ci && not i.config_reg_abi

abbrev pub all_silent : List Inputs → Bool
all_silent [] = true
all_silent (i ∷ is) = is_silent i && all_silent is

-- The cycles until the checker restarts the negotiation.
abbrev pub patience : ℕ → ℕ → Bool → Bool → ℕ
patience max counter true true = counter + 2
patience max counter true false = 1
patience max counter false true = counter + max + 3
patience max counter false false = counter + 2

abbrev patience_of : ℕ → Autoneg → ℕ
patience_of max s = patience max s.checker_counter s.checker_tick s.checker_ok

wears_out :
    (max n : ℕ) (s : State) (inited tick ok : Bool) (i : Inputs)
    → is_silent i ≡ true
    → 1 < patience max n tick ok
    → patience_of max (autoneg_step max (at s inited n tick ok) i).0 < patience max n tick ok
unfolding autoneg_step
wears_out max n s inited true true i h p = ground arith
wears_out max n s inited true false i h p = absurd (omega arith)
wears_out max n s inited false true i h p = ground arith
wears_out max n s inited false false i h p = ground arith

-- With patience 1 the checker restarts.
gives_up :
    (max n : ℕ) (s : State) (inited tick ok : Bool) (i : Inputs)
    → patience max n tick ok ≤ 1
    → (autoneg_step max (at s inited n tick ok) i).0.fsm ≡ wait_abi
unfolding autoneg_step
gives_up max n s inited true true i p = absurd (omega arith)
gives_up max n s inited false true i p = absurd (omega arith)
gives_up max n s inited false false i p = absurd (omega arith)
gives_up max n wait_abi inited true false i p = refl
gives_up max n wait_ack inited true false i p = refl
gives_up max n send_more_ack inited true false i p = refl
gives_up max n running inited true false i p = refl

stays_down :
    (max : ℕ) (s : Autoneg) (is : List Inputs)
    → all_silent is ≡ true
    → s.fsm ≡ wait_abi
    → (ticks (autoneg_step max) s is).fsm ≡ wait_abi
unfolding ticks autoneg_step
stays_down max s [] h d = d
stays_down max s (i ∷ is) h d =
    stays_down max (autoneg_step max s i).0 is (ground arith) (ground arith)

goes_down :
    (max : ℕ) (s : Autoneg) (is : List Inputs)
    → all_silent is ≡ true
    → patience_of max s ≤ length is
    → (ticks (autoneg_step max) s is).fsm ≡ wait_abi
unfolding ticks
goes_down max s [] h p = absurd (no_patience max s.checker_counter s.checker_tick s.checker_ok p)
  where
    no_patience : (max n : ℕ) (tick ok : Bool) → ¬ (patience max n tick ok ≤ 0)
    no_patience max n true true p = omega arith
    no_patience max n true false p = omega arith
    no_patience max n false true p = omega arith
    no_patience max n false false p = omega arith
goes_down max s (i ∷ is) h p = elim (dec_lt 1 (patience_of max s)) [
  | yes more ↦
      let wears =
        wears_out max s.checker_counter s.fsm s.fsm_inited s.checker_tick s.checker_ok i
          (ground arith) more in
      goes_down max (autoneg_step max s i).0 is (ground arith) (omega arith)
  | no out ↦ stays_down max (autoneg_step max s i).0 is (ground arith) (
      gives_up max s.checker_counter s.fsm s.fsm_inited s.checker_tick s.checker_ok i (omega arith))
]

-- From any state whose check counter is within its range, when nothing valid and no ability match
-- is seen for two check periods and three cycles, the negotiation waits for an ability match, so
-- the link is down.
pub autoneg_step-wait_abi :
    (max : ℕ) (s : Autoneg) (is : List Inputs)
    → s.checker_counter ≤ max
    → all_silent is ≡ true
    → 2 * max + 3 ≤ length is
    → (ticks (autoneg_step max) s is).fsm ≡ wait_abi
autoneg_step-wait_abi max s is fits h enough =
    goes_down max s is h (bounded max s.checker_counter s.checker_tick s.checker_ok fits enough)
  where
    bounded :
        (max n : ℕ) (tick ok : Bool) {m : ℕ}
        → n ≤ max
        → 2 * max + 3 ≤ m
        → patience max n tick ok ≤ m
    bounded max n true true p q = omega arith
    bounded max n true false p q = omega arith
    bounded max n false true p q = omega arith
    bounded max n false false p q = omega arith
