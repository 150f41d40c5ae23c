-- ===== src/Phy/Pcs/Transmit.antt =====
-- liteeth/phy/pcs_1000basex.py: `TransmitPath`.
use liteeth.Prelude.{ℕ, Bool, true, false, ◌/◌, ◌%◌, ◌&&◌, not, ◌==◌, if◌then◌else◌}
use liteeth.Prelude.{List, [], ◌∷◌}
use liteeth.Phy.Pcs.{Symbol, comma, start_of_packet, end_of_packet, carrier_extend}
use liteeth.Phy.Pcs.{config_1, config_2, idle_1, idle_2, next_timer}

pub data State : Type 0 where
  start config_d config_reg_lsb config_reg_msb idle data_state : State
  carrier_extend_1 carrier_extend_2 : State

pub record Tx : Type 0 where
  pub fsm : State
  pub parity : Bool
  pub c_type : Bool
  pub config_reg_buffer : ℕ
  pub timer : ℕ

-- `disparity` is the first bit of the encoder's.
pub record Inputs : Type 0 where
  pub config_stb : Bool
  pub config_reg : ℕ
  pub tx_stb : Bool
  pub tx_data : ℕ
  pub sgmii_speed : ℕ
  pub disparity : Bool

pub record Output : Type 0 where
  pub tx_ack : Bool
  pub symbol : Symbol

abbrev pub output : Bool → Bool → ℕ → Output
output tx_ack k d = record { tx_ack = tx_ack; symbol = record { k = k; d = d } }

abbrev pub next_fsm : State → Bool → Inputs → State
next_fsm start parity i = if i.config_stb then config_d else if i.tx_stb then data_state else idle
next_fsm config_d parity i = config_reg_lsb
next_fsm config_reg_lsb parity i = config_reg_msb
next_fsm config_reg_msb parity i = start
next_fsm idle parity i = start
next_fsm data_state parity i = if i.tx_stb then data_state else carrier_extend_1
next_fsm carrier_extend_1 parity i = if parity then start else carrier_extend_2
next_fsm carrier_extend_2 parity i = start

abbrev pub timer_en : State → Inputs → Bool
timer_en start i = not i.config_stb && i.tx_stb
timer_en data_state i = i.tx_stb
timer_en _ i = false

abbrev pub out_of : State → Bool → ℕ → ℕ → Inputs → Output
out_of start c_type buffer timer i =
    if i.config_stb
    then output true true comma
    else if i.tx_stb
    then output (timer == 0) true start_of_packet
    else output true true comma
out_of config_d c_type buffer timer i = output false false (if c_type then config_2 else config_1)
out_of config_reg_lsb c_type buffer timer i = output false false (buffer % 256)
out_of config_reg_msb c_type buffer timer i = output false false (buffer / 256)
out_of idle c_type buffer timer i = output false false (if i.disparity then idle_1 else idle_2)
out_of data_state c_type buffer timer i =
    if i.tx_stb then output (timer == 0) false i.tx_data else output true true end_of_packet
out_of carrier_extend_1 c_type buffer timer i = output false true carrier_extend
out_of carrier_extend_2 c_type buffer timer i = output false true carrier_extend

abbrev pub next_c_type : State → Bool → Bool
next_c_type config_d c_type = not c_type
next_c_type _ c_type = c_type

abbrev pub next_buffer : State → ℕ → Inputs → ℕ
next_buffer start buffer i = if i.config_stb then i.config_reg else buffer
next_buffer _ buffer i = buffer

unfoldable pub tx_step : Tx → Inputs → Tx × List Output
tx_step s i = (
  record {
    fsm = next_fsm s.fsm s.parity i;
    parity = not s.parity;
    c_type = next_c_type s.fsm s.c_type;
    config_reg_buffer = next_buffer s.fsm s.config_reg_buffer i;
    timer = next_timer i.sgmii_speed (timer_en s.fsm i) s.timer;
  },
  out_of s.fsm s.c_type s.config_reg_buffer s.timer i ∷ [],
)

abbrev pub at : State → Bool → Bool → ℕ → ℕ → Tx
at s parity c_type buffer timer = record {
  fsm = s;
  parity = parity;
  c_type = c_type;
  config_reg_buffer = buffer;
  timer = timer;
}
