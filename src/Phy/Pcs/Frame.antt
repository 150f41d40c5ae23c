-- ===== src/Phy/Pcs/Frame.antt =====
-- A frame through the two paths of liteeth/phy/pcs_1000basex.py, at each of the data rates.
pub mod Feed
pub mod Hear
use Prim.Native.Nat.{pred}
use liteeth.Prelude.{
  ℕ, zero, suc, Bool, true, false, ◌+◌, ◌-◌, ◌≡◌, refl, ap, ◌∙◌, not, ◌==◌, if◌then◌else◌,
}
use liteeth.Prelude.{List, [], ◌∷◌, ◌++◌, map, replicate, arith}
use liteeth.Machine.{ticks, outs, Leads, Leads-nil, Leads-on, Leads-append}
use liteeth.Phy.Pcs.{Symbol, start_of_packet, end_of_packet, carrier_extend, reload, next_timer}
use liteeth.Phy.Pcs.Transmit
use liteeth.Phy.Pcs.Receive
use liteeth.Phy.Pcs.Transmit.{Output, output, tx_step}
use liteeth.Phy.Pcs.Receive.{Byte, rx_step}

abbrev pub is_zero : ℕ → Bool
is_zero zero = true
is_zero (suc n) = false

abbrev pub flips : ℕ → Bool → Bool
flips zero p = p
flips (suc n) p = flips n (not p)

-- `base` has what the other signals of the transmitter hold; `rate` is the reload value.
module _ (base : Transmit.Inputs) (rate : ℕ) where
  abbrev pub byte_in : ℕ → Transmit.Inputs
  byte_in b = record base { config_stb = false; tx_stb = true; tx_data = b }

  abbrev pub quiet_in : Transmit.Inputs
  quiet_in = record base { config_stb = false; tx_stb = false }

  -- The symbols of a byte, which is acknowledged with the last of them.
  abbrev pub held : ℕ → ℕ → List Output
  held zero b = []
  held (suc n) b = output (is_zero n) false b ∷ held n b

  -- The cycles from the end of a frame to START, when the end comes at this parity.
  abbrev pub ending : Bool → ℕ
  ending p = if p then 2 else 1

  -- The inputs for the bytes `bs` and the end of the frame, and what is sent.
  abbrev pub rest_in : Bool → List ℕ → List Transmit.Inputs
  rest_in p [] = quiet_in ∷ replicate (ending p) quiet_in
  rest_in p (b ∷ bs) = replicate (suc rate) (byte_in b) ++ rest_in (flips (suc rate) p) bs

  abbrev pub rest_out : Bool → List ℕ → List Output
  rest_out p [] =
      output true true end_of_packet ∷ replicate (ending p) (output false true carrier_extend)
  rest_out p (b ∷ bs) = held (suc rate) b ++ rest_out (flips (suc rate) p) bs

  abbrev pub frame_in : Bool → ℕ → List ℕ → List Transmit.Inputs
  frame_in p b bs = byte_in b ∷ (replicate rate (byte_in b) ++ rest_in (flips (suc rate) p) bs)

  abbrev pub frame_out : Bool → ℕ → List ℕ → List Output
  frame_out p b bs =
      output (rate == 0) true start_of_packet ∷ (held rate b ++ rest_out (flips (suc rate) p) bs)

  module _ (rated : (t : ℕ) → reload base.sgmii_speed t ≡ rate) where
    pub last_cycle :
        (b : ℕ) (p c : Bool) (buffer : ℕ)
        → tx_step (Transmit.at Transmit.data_state p c buffer 0) (byte_in b)
          ≡ (Transmit.at Transmit.data_state (not p) c buffer rate, output true false b ∷ [])
    unfolding tx_step
    last_cycle b p c buffer = ground (arith, rated 0)

    pub more_cycle :
        (n b : ℕ) (p c : Bool) (buffer : ℕ)
        → tx_step (Transmit.at Transmit.data_state p c buffer (suc n)) (byte_in b)
          ≡ (Transmit.at Transmit.data_state (not p) c buffer n, output false false b ∷ [])
    unfolding tx_step
    more_cycle n b p c buffer = ground arith

    hold_run :
        (n b : ℕ) (p c : Bool) (buffer : ℕ)
        → Leads tx_step
            (Transmit.at Transmit.data_state p c buffer n)
            (replicate (suc n) (byte_in b))
            (Transmit.at Transmit.data_state (flips (suc n) p) c buffer rate)
            (held (suc n) b)
    hold_run zero b p c buffer = Leads-on _ (last_cycle b p c buffer) (Leads-nil _ _)
    hold_run (suc n) b p c buffer =
        Leads-on _ (more_cycle n b p c buffer) (hold_run n b (not p) c buffer)

    rest_run :
        (bs : List ℕ) (p c : Bool) (buffer : ℕ)
        → Leads tx_step
            (Transmit.at Transmit.data_state p c buffer rate)
            (rest_in p bs)
            (Transmit.at Transmit.start false c buffer rate)
            (rest_out p bs)
    unfolding tx_step ticks outs
    rest_run [] true c buffer = record { reaches = ground (arith, rated rate); passes = refl }
    rest_run [] false c buffer = record { reaches = ground (arith, rated rate); passes = refl }
    rest_run (b ∷ bs) p c buffer =
        Leads-append _ (hold_run rate b p c buffer) (rest_run bs (flips (suc rate) p) c buffer)

    pub first_cycle :
        (n b : ℕ) (p c : Bool) (buffer : ℕ)
        → rate ≡ n
        → tx_step (Transmit.at Transmit.start p c buffer rate) (byte_in b) ≡ (
          Transmit.at Transmit.data_state (not p) c buffer (pred n),
          output (rate == 0) true start_of_packet ∷ [],
        )
    unfolding tx_step
    first_cycle zero b p c buffer e = ground (arith, rated 0, rated rate)
    first_cycle (suc n) b p c buffer e = ground (arith, rated 0, rated rate)

    first_held :
        (n b : ℕ) (p c : Bool) (buffer : ℕ)
        → rate ≡ n
        → Leads tx_step
            (Transmit.at Transmit.data_state p c buffer (pred n))
            (replicate n (byte_in b))
            (Transmit.at Transmit.data_state (flips n p) c buffer rate)
            (held n b)
    first_held zero b p c buffer e = rw e (Leads-nil _ _)
    first_held (suc n) b p c buffer e = hold_run n b p c buffer

    -- From START, with the timer at its reload value, a frame goes out as /S/ in the place of its
    -- first byte
    pub tx_step-frame :
        (b : ℕ) (bs : List ℕ) (p c : Bool) (buffer : ℕ)
        → let s = Transmit.at Transmit.start p c buffer rate in
          (ticks tx_step s (frame_in p b bs) ≡ Transmit.at Transmit.start false c buffer rate)
          × (outs tx_step s (frame_in p b bs) ≡ frame_out p b bs)
    tx_step-frame b bs p c buffer =
        let rest = rest_run bs (flips (suc rate) p) c buffer in
        let head = first_held rate b (not p) c buffer refl in
        let led = Leads-on _ (first_cycle rate b p c buffer refl) (Leads-append _ head rest) in
        (led.reaches, led.passes)
