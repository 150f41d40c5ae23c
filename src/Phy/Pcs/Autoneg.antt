-- ===== src/Phy/Pcs/Autoneg.antt =====
-- liteeth/phy/pcs_1000basex.py: the negotiation of `PCS` and its link checker. The pulse
-- synchronizers and the timer of `more_ack` are the libraries': their outputs are inputs here.
pub mod Handshake
pub mod Silence
use Prim.Native.Nat.{bit_or}
use liteeth.Prelude.{
  ℕ, Bool, true, false, ◌+◌, ◌-◌, ◌*◌, ◌%◌, ◌^◌, ◌≡◌, refl, ◌&&◌, ◌||◌, not, ◌==◌,
}
use liteeth.Prelude.{if◌then◌else◌, List, [], ◌∷◌}

pub data State : Type 0 where
  wait_abi wait_ack send_more_ack running : State

-- `max` is `checker_max_val`.
pub record Autoneg : Type 0 where
  pub fsm : State
  pub fsm_inited : Bool
  pub checker_counter : ℕ
  pub checker_tick : Bool
  pub checker_ok : Bool

pub record Inputs : Type 0 where
  pub seen_valid_ci : Bool
  pub config_reg_abi : Bool
  pub config_reg_ack : Bool
  pub more_ack_done : Bool
  pub config_reg_empty : Bool

pub record Outputs : Type 0 where
  pub config_stb : Bool
  pub autoneg_ack : Bool
  pub more_ack_wait : Bool
  pub link_up : Bool
  pub restart : Bool

abbrev pub silent : Autoneg → Bool
silent s = s.checker_tick && not s.checker_ok

-- `expired` is `checker_tick & ~checker_ok`; of two assignments of the next state the last counts.
abbrev pub next_fsm : State → Bool → Inputs → State
next_fsm wait_abi expired i =
    if expired then wait_abi else if i.config_reg_abi then wait_ack else wait_abi
next_fsm wait_ack expired i =
    if expired then wait_abi else if i.config_reg_ack then send_more_ack else wait_ack
next_fsm send_more_ack expired i =
    if expired then wait_abi else if i.more_ack_done then running else send_more_ack
next_fsm running expired i = if expired || i.config_reg_empty then wait_abi else running

abbrev pub next_inited : State → Bool → Inputs → Bool
next_inited wait_abi inited i = inited || i.config_reg_abi
next_inited _ inited i = inited

abbrev pub outputs : State → Bool → Bool → Inputs → Outputs
outputs wait_abi inited expired i = record {
  config_stb = inited;
  autoneg_ack = false;
  more_ack_wait = false;
  link_up = false;
  restart = expired;
}
outputs wait_ack inited expired i = record {
  config_stb = true;
  autoneg_ack = true;
  more_ack_wait = false;
  link_up = false;
  restart = expired;
}
outputs send_more_ack inited expired i = record {
  config_stb = true;
  autoneg_ack = true;
  more_ack_wait = true;
  link_up = false;
  restart = expired;
}
outputs running inited expired i = record {
  config_stb = false;
  autoneg_ack = false;
  more_ack_wait = false;
  link_up = true;
  restart = expired || i.config_reg_empty;
}

unfoldable pub autoneg_step : ℕ → Autoneg → Inputs → Autoneg × List Outputs
autoneg_step max s i = (
  record {
    fsm = next_fsm s.fsm (silent s) i;
    fsm_inited = next_inited s.fsm s.fsm_inited i;
    checker_counter = if s.checker_counter == 0 then max else s.checker_counter - 1;
    checker_tick = s.checker_counter == 0;
    checker_ok = if s.checker_tick then false else s.checker_ok || i.seen_valid_ci;
  },
  outputs s.fsm s.fsm_inited (silent s) i ∷ [],
)

abbrev pub at : State → Bool → ℕ → Bool → Bool → Autoneg
at s inited counter tick ok = record {
  fsm = s;
  fsm_inited = inited;
  checker_counter = counter;
  checker_tick = tick;
  checker_ok = ok;
}

abbrev pub bit : Bool → ℕ
bit true = 1
bit false = 0

-- `tx.config_reg`, of 16 bits. The complement is taken at that width, as FHDL does it: it has ones
-- above the bit of its operand.
abbrev pub config_reg : Bool → Bool → ℕ
config_reg is_sgmii autoneg_ack =
    bit_or (bit_or (bit is_sgmii) ((2 ^ 16 - 1 - bit is_sgmii) * 2 ^ 5 % 2 ^ 16))
      (bit autoneg_ack * 2 ^ 14)

-- The configuration word that is sent is the same with and without an acknowledgement: 0xffc1 for
-- SGMII and 0xffe0 otherwise, in which the bit of acknowledgement is set.
pub config_reg_any_ack :
    (is_sgmii ack : Bool)
    → (config_reg is_sgmii ack ≡ config_reg is_sgmii (not ack))
      × (config_reg is_sgmii ack ≡ (if is_sgmii then 65473 else 65504))
config_reg_any_ack true true = (refl, refl)
config_reg_any_ack true false = (refl, refl)
config_reg_any_ack false true = (refl, refl)
config_reg_any_ack false false = (refl, refl)
