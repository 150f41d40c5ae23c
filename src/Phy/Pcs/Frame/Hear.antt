-- ===== src/Phy/Pcs/Frame/Hear.antt =====
-- The symbols of a frame at the receiver of liteeth/phy/pcs_1000basex.py, whose endpoint gives back
-- the bytes.
use mathlib.Core.List.{map-append}
use Prim.Native.Nat.{pred}
use liteeth.Prelude.{ℕ, zero, suc, Bool, true, false, ◌≡◌, refl, ◌==◌, if◌then◌else◌}
use liteeth.Prelude.{List, [], ◌∷◌, map, arith}
use liteeth.Machine.{ticks, outs, Leads, Leads-nil, Leads-on, Leads-first, Leads-append}
use liteeth.Phy.Pcs.{start_of_packet, carrier_extend, reload}
use liteeth.Phy.Pcs.Transmit
use liteeth.Phy.Pcs.Receive
use liteeth.Phy.Pcs.Transmit.{Output, output, tx_step}
use liteeth.Phy.Pcs.Receive.{Byte, rx_step, rx_next}
use liteeth.Phy.Pcs.Frame.Feed.{fed, frame_time, frame_feed}
use liteeth.Phy.Pcs.Frame.{is_zero, flips, held, rest_out, frame_in, frame_out, tx_step-frame}

abbrev pub heard : ℕ → Output → Receive.Inputs
heard speed o = record { decoder = o.symbol; sgmii_speed = speed }

-- The beats for the byte `d` that is in the endpoint, and for those behind it.
abbrev pub beats : ℕ → List ℕ → List Byte
beats d [] = record { last = true; data_byte = d } ∷ []
beats d (b ∷ bs) = record { last = false; data_byte = d } ∷ beats b bs

module _ (base : Transmit.Inputs) (rate : ℕ)
    (rated : (t : ℕ) → reload base.sgmii_speed t ≡ rate) where
  abbrev hears : Output → Receive.Inputs
  hears = heard base.sgmii_speed

  -- A beat that passes when there is one.
  abbrev passing : Bool → ℕ → List Byte
  passing v d = if v then record { last = false; data_byte = d } ∷ [] else []

  hear_last :
      (b lsb reg d : ℕ) (seen v : Bool)
      → rx_step
          (Receive.at Receive.data_state lsb reg seen 0 true v d)
          (hears (output true false b))
        ≡ (Receive.at Receive.data_state lsb reg false rate true true b, passing v d)
  unfolding rx_step rx_next
  hear_last b lsb reg d seen v = ground (arith, rated 0)

  hear_more :
      (n b lsb reg d : ℕ) (seen v : Bool)
      → rx_step
          (Receive.at Receive.data_state lsb reg seen (suc n) true v d)
          (hears (output false false b))
        ≡ (Receive.at Receive.data_state lsb reg false n true false b, passing v d)
  unfolding rx_step rx_next
  hear_more n b lsb reg d seen v = ground arith

  hear_hold :
      (n b lsb reg d : ℕ) (seen v : Bool)
      → Leads rx_step
          (Receive.at Receive.data_state lsb reg seen n true v d)
          (map hears (held base rate (suc n) b))
          (Receive.at Receive.data_state lsb reg false rate true true b)
          (passing v d)
  hear_hold zero b lsb reg d seen v = Leads-first _ (hear_last b lsb reg d seen v) (Leads-nil _ _)
  hear_hold (suc n) b lsb reg d seen v =
      Leads-first _ (hear_more n b lsb reg d seen v) (hear_hold n b lsb reg b false false)

  hear_rest :
      (bs : List ℕ) (p : Bool) (lsb reg d : ℕ) (seen : Bool)
      → Leads rx_step
          (Receive.at Receive.data_state lsb reg seen rate true true d)
          (map hears (rest_out base rate p bs))
          (Receive.at Receive.start lsb reg false rate false false carrier_extend)
          (beats d bs)
  unfolding rx_step rx_next ticks outs
  hear_rest [] true lsb reg d seen = record { reaches = ground (arith, rated rate); passes = refl }
  hear_rest [] false lsb reg d seen = record { reaches = ground (arith, rated rate); passes = refl }
  hear_rest (b ∷ bs) p lsb reg d seen =
      let tail = hear_rest bs (flips (suc rate) p) lsb reg b false in
      rw
        (map-append hears (held base rate (suc rate) b)
          (rest_out base rate (flips (suc rate) p) bs))
        (Leads-append _ (hear_hold rate b lsb reg d seen true) tail)

  hear_first :
      (n lsb reg d : ℕ) (seen en : Bool)
      → rate ≡ n
      → rx_step
          (Receive.at Receive.start lsb reg seen rate en false d)
          (hears (output (rate == 0) true start_of_packet))
        ≡ (Receive.at Receive.data_state lsb reg false (pred n) true (is_zero n) 85, [])
  unfolding rx_step rx_next
  hear_first zero lsb reg d seen en e = ground (arith, rated 0, rated rate)
  hear_first (suc n) lsb reg d seen en e = ground (arith, rated 0, rated rate)

  hear_first_held :
      (n b lsb reg : ℕ)
      → rate ≡ n
      → Leads rx_step
          (Receive.at Receive.data_state lsb reg false (pred n) true (is_zero n) 85)
          (map hears (held base rate n b))
          (Receive.at Receive.data_state lsb reg false rate true true (if is_zero n then 85 else b))
          []
  hear_first_held zero b lsb reg e = rw e (Leads-nil _ _)
  hear_first_held (suc n) b lsb reg e = hear_hold n b lsb reg 85 false false

  hear_frame :
      (b : ℕ) (bs : List ℕ) (p : Bool) (lsb reg d : ℕ) (seen en : Bool)
      → Leads rx_step
          (Receive.at Receive.start lsb reg seen rate en false d)
          (map hears (frame_out base rate p b bs))
          (Receive.at Receive.start lsb reg false rate false false carrier_extend)
          (beats (if is_zero rate then 85 else b) bs)
  hear_frame b bs p lsb reg d seen en =
      let q = flips (suc rate) p in
      let head = hear_first_held rate b lsb reg refl in
      let rest = hear_rest bs q lsb reg (if is_zero rate then 85 else b) false in
      rw (map-append hears (held base rate rate b) (rest_out base rate q bs))
        (Leads-on _ (hear_first rate lsb reg d seen en refl) (Leads-append _ head rest))

  -- The same for the inputs of `frame_in`.
  rx_step-frame_in :
      (b : ℕ) (bs : List ℕ) (p c : Bool) (buffer lsb reg d : ℕ) (seen en : Bool)
      → let sent =
          outs tx_step (Transmit.at Transmit.start p c buffer rate) (frame_in base rate p b bs) in
        let s = Receive.at Receive.start lsb reg seen rate en false d in
        (outs rx_step s (map (heard base.sgmii_speed) sent)
          ≡ beats (if is_zero rate then 85 else b) bs)
        × (ticks rx_step s (map (heard base.sgmii_speed) sent)
            ≡ Receive.at Receive.start lsb reg false rate false false carrier_extend)
  rx_step-frame_in b bs p c buffer lsb reg d seen en =
      let sent = (tx_step-frame base rate rated b bs p c buffer).1 in
      let led = hear_frame b bs p lsb reg d seen en in rw sent (led.passes, led.reaches)

  -- At each data rate (a speed with its reload value), from START on both sides with the timers at
  -- that value, a stream whose next byte stands at the transmitter until it is acknowledged, for as
  -- many cycles as the bytes and the end of the frame take at that rate, comes out of the
  -- receiver's endpoint as one beat for each byte, the last of them marked, and the receiver is in
  -- START again; the first byte is read as 0x55 when the rate is one byte per cycle.
  pub rx_step-tx_step :
      (b : ℕ) (bs : List ℕ) (p c : Bool) (buffer lsb reg d : ℕ) (seen en : Bool)
      → let from = Transmit.at Transmit.start p c buffer rate in
        let sent = outs tx_step from (fed base rate from (b ∷ bs) (frame_time base rate p bs)) in
        let s = Receive.at Receive.start lsb reg seen rate en false d in
        (outs rx_step s (map (heard base.sgmii_speed) sent)
          ≡ beats (if is_zero rate then 85 else b) bs)
        × (ticks rx_step s (map (heard base.sgmii_speed) sent)
            ≡ Receive.at Receive.start lsb reg false rate false false carrier_extend)
  rx_step-tx_step b bs p c buffer lsb reg d seen en =
      rw (frame_feed base rate rated b bs p c buffer)
        (rx_step-frame_in b bs p c buffer lsb reg d seen en)
