-- ===== src/Tests/Pcs.antt =====
-- The coding layer of liteeth/phy/pcs_1000basex.py on concrete frames and words.
use liteeth.Prelude.{ℕ, Bool, true, false, ◌≡◌, refl, arith, List, [], ◌∷◌, map, replicate}
use liteeth.Machine.{ticks, outs}
use liteeth.Phy.Pcs.Transmit
use liteeth.Phy.Pcs.Receive
use liteeth.Phy.Pcs.Transmit.{tx_step}
use liteeth.Phy.Pcs.Receive.{Byte, rx_step}
use liteeth.Phy.Pcs.Frame.{frame_in}
use liteeth.Phy.Pcs.Frame.Feed.{fed, frame_time}
use liteeth.Phy.Pcs.Frame.Hear.{heard, rx_step-tx_step}
use liteeth.Phy.Pcs.Align.{all_even, tx_step-all_even}
use liteeth.Phy.Pcs.Config
use liteeth.Phy.Pcs.Config.{Word, words_in, reports, rx_at, reports-tx_step}
use liteeth.Phy.Pcs.Autoneg
use liteeth.Phy.Pcs.Autoneg.{autoneg_step, wait_abi, running, config_reg, config_reg_any_ack}
use liteeth.Phy.Pcs.Autoneg.Handshake.{ability, acknowledge, more_acks, in_order}
use liteeth.Phy.Pcs.Autoneg.Handshake.{autoneg_step-in_order}
use liteeth.Phy.Pcs.Autoneg.Silence.{autoneg_step-wait_abi}

-- The signals at rest, at 100 Mb/s, where a byte takes ten cycles.
abbrev rest : Transmit.Inputs
rest = record {
  config_stb = false;
  config_reg = 0;
  tx_stb = false;
  tx_data = 0;
  sgmii_speed = 1;
  disparity = false;
}

abbrev fresh_tx : ℕ → Transmit.Tx
fresh_tx timer = Transmit.at Transmit.start false false 0 timer

rx_step-tx_step_example :
    outs rx_step (Receive.at Receive.start 0 0 false 9 false false 0) (
      map (heard 1) (
        outs tx_step
          (fresh_tx 9)
          (fed rest 9 (fresh_tx 9) (85 ∷ 7 ∷ 8 ∷ []) (frame_time rest 9 false (7 ∷ 8 ∷ [])))))
    ≡ record { last = false; data_byte = 85 }
      ∷ (record { last = false; data_byte = 7 } ∷ (record { last = true; data_byte = 8 } ∷ []))
rx_step-tx_step_example =
    (rx_step-tx_step rest 9 (λ t. refl) 85 (7 ∷ (8 ∷ [])) false false 0 0 0 0 false false).0

tx_step-all_even_example :
    all_even false
      (outs tx_step (fresh_tx 0) (rest ∷ (rest ∷ (frame_in rest 0 false 85 (188 ∷ [])))))
    ≡ true
tx_step-all_even_example =
    tx_step-all_even (fresh_tx 0) (rest ∷ (rest ∷ (frame_in rest 0 false 85 (188 ∷ [])))) refl

abbrev word : ℕ → Word
word reg = record { reg = reg; first = rest; second = rest; third = rest; fourth = rest }

reports-tx_step_example :
    reports (rx_at Receive.start 0 0 false 0) (
      map
        (Config.heard 2)
        (outs tx_step (fresh_tx 0) (words_in (word 0x4020 ∷ (word 0x0021 ∷ [])))))
    ≡ 0x4020 ∷ (0x0021 ∷ [])
reports-tx_step_example = reports-tx_step (word 0x4020 ∷ (word 0x0021 ∷ [])) false false 0 0 2 0 0 0

abbrev event : Bool → Bool → Bool → Autoneg.Inputs
event abi ack more = record {
  seen_valid_ci = true;
  config_reg_abi = abi;
  config_reg_ack = ack;
  more_ack_done = more;
  config_reg_empty = false;
}

abbrev events : List Autoneg.Inputs
events = event true false false ∷ (event false true false ∷ (event false false true ∷ []))

abbrev down : Autoneg.Autoneg
down = Autoneg.at wait_abi false 5 false true

autoneg_step-in_order_example : in_order (ability ∷ (acknowledge ∷ (more_acks ∷ []))) events ≡ true
unfolding autoneg_step ticks
autoneg_step-in_order_example = autoneg_step-in_order 5 down events refl refl

abbrev silence : Autoneg.Inputs
silence = record {
  seen_valid_ci = false;
  config_reg_abi = false;
  config_reg_ack = false;
  more_ack_done = true;
  config_reg_empty = false;
}

autoneg_step-wait_abi_example :
    (ticks (autoneg_step 2) (Autoneg.at running true 2 false true) (replicate 7 silence)).fsm
    ≡ wait_abi
autoneg_step-wait_abi_example =
    autoneg_step-wait_abi 2 (Autoneg.at running true 2 false true) (replicate 7 silence)
      (omega arith) refl (omega arith)
