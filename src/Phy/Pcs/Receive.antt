-- ===== src/Phy/Pcs/Receive.antt =====
-- liteeth/phy/pcs_1000basex.py: `ReceivePath`, and the receiving endpoint of `PCS`.
use liteeth.Prelude.{ℕ, Bool, false, ◌+◌, ◌*◌, ◌&&◌, ◌||◌, not, ◌==◌, if◌then◌else◌}
use liteeth.Prelude.{List, [], ◌∷◌}
use liteeth.Phy.Pcs.{Symbol, comma, start_of_packet}
use liteeth.Phy.Pcs.{config_1, config_2, idle_1, idle_2, next_timer}

pub data State : Type 0 where
  start k28_5 config_reg_lsb config_reg_msb data_state : State

-- `lsb` is `config_reg_lsb`.
pub record Rx : Type 0 where
  pub fsm : State
  pub lsb : ℕ
  pub config_reg : ℕ
  pub seen_config_reg : Bool
  pub timer : ℕ

-- A cycle: what the decoder gives, and the speed.
pub record Inputs : Type 0 where
  pub decoder : Symbol
  pub sgmii_speed : ℕ

abbrev is_start : Symbol → Bool
is_start x = x.k && x.d == start_of_packet

abbrev is_config : Symbol → Bool
is_config x = not x.k && (x.d == config_1 || x.d == config_2)

abbrev is_idle : Symbol → Bool
is_idle x = not x.k && (x.d == idle_1 || x.d == idle_2)

abbrev pub next_fsm : State → Symbol → State
next_fsm start x = if is_start x then data_state else if x.k && x.d == comma then k28_5 else start
next_fsm k28_5 x = if is_config x then config_reg_lsb else start
next_fsm config_reg_lsb x =
    if x.k then (if is_start x then data_state else start) else config_reg_msb
next_fsm config_reg_msb x = start
next_fsm data_state x = if x.k then start else data_state

-- `timer_en` is high where `rx_en` is.
abbrev pub rx_en : State → Symbol → Bool
rx_en start x = is_start x
rx_en config_reg_lsb x = is_start x
rx_en data_state x = not x.k
rx_en _ x = false

abbrev pub first_preamble_byte : State → Symbol → Bool
first_preamble_byte start x = is_start x
first_preamble_byte config_reg_lsb x = is_start x
first_preamble_byte _ x = false

abbrev pub rx_data : State → Symbol → ℕ
rx_data s x = if first_preamble_byte s x then 85 else x.d

abbrev pub seen_valid_ci : State → Symbol → Bool
seen_valid_ci k28_5 x = is_config x || is_idle x
seen_valid_ci _ x = false

abbrev pub sample_en : State → ℕ → Symbol → Bool
sample_en s timer x = rx_en s x && timer == 0

abbrev pub next_lsb : State → ℕ → Symbol → ℕ
next_lsb config_reg_lsb lsb x = if x.k then lsb else x.d
next_lsb _ lsb x = lsb

abbrev pub loads_msb : State → Symbol → Bool
loads_msb config_reg_msb x = not x.k
loads_msb _ x = false

unfoldable pub rx_next : Rx → Inputs → Rx
rx_next s i = record {
  fsm = next_fsm s.fsm i.decoder;
  lsb = next_lsb s.fsm s.lsb i.decoder;
  config_reg = if loads_msb s.fsm i.decoder then s.lsb + 256 * i.decoder.d else s.config_reg;
  seen_config_reg = loads_msb s.fsm i.decoder;
  timer = next_timer i.sgmii_speed (rx_en s.fsm i.decoder) s.timer;
}

-- What the endpoint keeps, and a beat of it.
pub record Endpoint : Type 0 where
  pub rx : Rx
  pub rx_en_d : Bool
  pub valid : Bool
  pub data_byte : ℕ

pub record Byte : Type 0 where
  pub last : Bool
  pub data_byte : ℕ

unfoldable pub rx_step : Endpoint → Inputs → Endpoint × List Byte
rx_step s i =
    let x = i.decoder in
    let fsm = s.rx.fsm in
    (
      record {
        rx = rx_next s.rx i;
        rx_en_d = rx_en fsm x;
        valid = sample_en fsm s.rx.timer x;
        data_byte = rx_data fsm x;
      },
      if s.valid
          then record { last = not (rx_en fsm x) && s.rx_en_d; data_byte = s.data_byte } ∷ []
          else [],
    )

abbrev pub at : State → ℕ → ℕ → Bool → ℕ → Bool → Bool → ℕ → Endpoint
at s lsb config_reg seen timer rx_en_d valid data_byte = record {
  rx = record {
    fsm = s;
    lsb = lsb;
    config_reg = config_reg;
    seen_config_reg = seen;
    timer = timer;
  };
  rx_en_d = rx_en_d;
  valid = valid;
  data_byte = data_byte;
}
