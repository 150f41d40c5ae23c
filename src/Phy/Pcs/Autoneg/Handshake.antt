-- ===== src/Phy/Pcs/Autoneg/Handshake.antt =====
-- What must have come before the link of liteeth/phy/pcs_1000basex.py is up.
use mathlib.Core.Path.{subst}
use liteeth.Prelude.{ℕ, Bool, true, false, ◌≡◌, refl, if◌then◌else◌}
use liteeth.Prelude.{List, [], ◌∷◌, arith, Bool-cases, inl, inr}
use liteeth.Machine.{ticks}
use liteeth.Phy.Pcs.Autoneg.{State, wait_abi, wait_ack, send_more_ack, running}
use liteeth.Phy.Pcs.Autoneg.{Autoneg, Inputs, autoneg_step, at}

pub data Event : Type 0 where
  ability acknowledge more_acks : Event

abbrev pub occurs : Event → Inputs → Bool
occurs ability i = i.config_reg_abi
occurs acknowledge i = i.config_reg_ack
occurs more_acks i = i.more_ack_done

-- The events come in this order, with anything between them.
unfoldable pub in_order : List Event → List Inputs → Bool
in_order [] is = true
in_order (e ∷ es) [] = false
in_order (e ∷ es) (i ∷ is) = if occurs e i then in_order es is else in_order (e ∷ es) is

-- What a state still waits for.
abbrev pub awaited : State → List Event
awaited wait_abi = ability ∷ (acknowledge ∷ (more_acks ∷ []))
awaited wait_ack = acknowledge ∷ (more_acks ∷ [])
awaited send_more_ack = more_acks ∷ []
awaited running = []

if-both : (b : Bool) {x y : Bool} → x ≡ true → y ≡ true → (if b then x else y) ≡ true
if-both true p q = p
if-both false p q = q

-- Fewer events are in order, too.
in_order_fewer :
    (e : Event) (es : List Event) (is : List Inputs)
    → in_order (e ∷ es) is ≡ true
    → in_order es is ≡ true
unfolding in_order
in_order_fewer e [] is h = refl
in_order_fewer e (d ∷ es) [] h = h
in_order_fewer e (d ∷ es) (i ∷ is) h =
    let tail : in_order (d ∷ es) is ≡ true = elim (Bool-cases (occurs e i)) [
      | inl v ↦ simp v at h
      | inr v ↦ in_order_fewer e (d ∷ es) is (simp v at h)
    ] in
    if-both (occurs d i) (in_order_fewer d es is tail) tail

in_order_later :
    (es : List Event) (i : Inputs) (is : List Inputs)
    → in_order es is ≡ true
    → in_order es (i ∷ is) ≡ true
unfolding in_order
in_order_later [] i is h = refl
in_order_later (e ∷ es) i is h = if-both (occurs e i) (in_order_fewer e es is h) h

step_awaits :
    (s : State) (inited tick ok : Bool) (max n : ℕ) (i : Inputs) (is : List Inputs)
    → in_order (awaited (autoneg_step max (at s inited n tick ok) i).0.fsm) is ≡ true
    → in_order (awaited s) (i ∷ is) ≡ true
unfolding autoneg_step in_order
step_awaits running inited tick ok max n i is h = refl
step_awaits send_more_ack inited tick ok max n i is h = ground (
  arith,
  in_order_fewer ability (acknowledge ∷ (more_acks ∷ [])) is,
  in_order_fewer acknowledge (more_acks ∷ []) is,
)
step_awaits wait_ack inited tick ok max n i is h = ground (
  arith,
  in_order_fewer ability (acknowledge ∷ (more_acks ∷ [])) is,
  in_order_fewer acknowledge (more_acks ∷ []) is,
)
step_awaits wait_abi inited tick ok max n i is h =
    ground (arith, in_order_fewer ability (acknowledge ∷ (more_acks ∷ [])) is)

run_awaits :
    (max : ℕ) (s : Autoneg) (is : List Inputs)
    → (ticks (autoneg_step max) s is).fsm ≡ running
    → in_order (awaited s.fsm) is ≡ true
unfolding ticks in_order
run_awaits max s [] up = rw up refl
run_awaits max s (i ∷ is) up =
    step_awaits s.fsm s.fsm_inited s.checker_tick s.checker_ok max s.checker_counter i is
      (run_awaits max (autoneg_step max s i).0 is up)

-- If the link is up after any schedule that starts without a match of abilities, then an ability
-- match, an acknowledgement and the end of the last wait have come in this order within it.
pub autoneg_step-in_order :
    (max : ℕ) (s : Autoneg) (is : List Inputs)
    → s.fsm ≡ wait_abi
    → (ticks (autoneg_step max) s is).fsm ≡ running
    → in_order (ability ∷ (acknowledge ∷ (more_acks ∷ []))) is ≡ true
autoneg_step-in_order max s is down up =
    subst (λ f. in_order (awaited f) is ≡ true) down (run_awaits max s is up)
