-- ===== src/Phy/Pcs/Frame/Feed.antt =====
-- The transmitter of liteeth/phy/pcs_1000basex.py and the stream at its `sink`: a byte stands there
-- until `tx_ack`.
use liteeth.Prelude.{
  ℕ, zero, suc, Bool, true, false, ◌+◌, ◌≡◌, ◌==◌, not, refl, ap, sym, ◌∙◌, if◌then◌else◌, arith,
}
use liteeth.Prelude.{List, [], ◌∷◌, ◌++◌, replicate, length, length-append, length-replicate}
use mathlib.Core.List.{append_assoc, append-nil}
use liteeth.Phy.Pcs.{reload, end_of_packet, carrier_extend}
use liteeth.Phy.Pcs.Transmit
use liteeth.Phy.Pcs.Transmit.{Output, output, tx_step}
use liteeth.Phy.Pcs.Frame.{byte_in, quiet_in, flips, ending, rest_in, frame_in}
use liteeth.Phy.Pcs.Frame.{last_cycle, more_cycle, first_cycle}

abbrev pub acked : List Output → Bool
acked [] = false
acked (o ∷ os) = o.tx_ack

abbrev pub bytes_left : Bool → List ℕ → List ℕ
bytes_left a [] = []
bytes_left a (b ∷ bs) = if a then bs else b ∷ bs

module _ (base : Transmit.Inputs) (rate : ℕ) where
  -- The first of the bytes that are left, or none.
  abbrev pub input_for : List ℕ → Transmit.Inputs
  input_for [] = quiet_in base rate
  input_for (b ∷ bs) = byte_in base rate b

  -- What the transmitter gets in so many cycles of a stream of these bytes.
  unfoldable pub fed : Transmit.Tx → List ℕ → ℕ → List Transmit.Inputs
  fed s bs zero = []
  fed s bs (suc n) =
      let r = tx_step s (input_for bs) in input_for bs ∷ fed r.0 (bytes_left (acked r.1) bs) n

  -- The cycles of a frame and of its end, up to START.
  abbrev pub rest_time : Bool → List ℕ → ℕ
  rest_time p [] = 1 + ending base rate p
  rest_time p (b ∷ bs) = rate + 1 + rest_time (flips (suc rate) p) bs

  abbrev pub frame_time : Bool → List ℕ → ℕ
  frame_time p bs = rate + 1 + rest_time (flips (suc rate) p) bs

  abbrev Feeds : Transmit.Tx → List ℕ → List Transmit.Inputs → Transmit.Tx → List ℕ → Type 0
  Feeds s bs is s' bs' = (n : ℕ) → fed s bs (length is + n) ≡ is ++ fed s' bs' n

  feed_nil : (s : Transmit.Tx) (bs : List ℕ) → Feeds s bs [] s bs
  feed_nil s bs n = let same : 0 + n ≡ n = omega arith in ap (fed s bs) same

  feed_on :
      (s s' s'' : Transmit.Tx) (bs bs'' : List ℕ) (is : List Transmit.Inputs) (os : List Output)
      → tx_step s (input_for bs) ≡ (s', os)
      → Feeds s' (bytes_left (acked os) bs) is s'' bs''
      → Feeds s bs (input_for bs ∷ is) s'' bs''
  unfolding fed
  feed_on s s' s'' bs bs'' is os e h n =
      let same : length (input_for bs ∷ is) + n ≡ suc (length is + n) = omega arith in
      ap (fed s bs) same
      ∙ ap (λ t. input_for bs ∷ t)
          (ap (λ r. fed r.0 (bytes_left (acked r.1) bs) (length is + n)) e ∙ h n)

  feed_append :
      (s s' s'' : Transmit.Tx) (bs bs' bs'' : List ℕ) (is js : List Transmit.Inputs)
      → Feeds s bs is s' bs'
      → Feeds s' bs' js s'' bs''
      → Feeds s bs (is ++ js) s'' bs''
  feed_append s s' s'' bs bs' bs'' is js h k n =
      let same : length (is ++ js) + n ≡ length is + (length js + n) =
        omega (arith, length-append is js) in
      ap (fed s bs) same
      ∙ h (length js + n)
      ∙ ap (λ t. is ++ t) (k n)
      ∙ sym (append_assoc is js (fed s'' bs'' n))

  module _ (rated : (t : ℕ) → reload base.sgmii_speed t ≡ rate) where
    abbrev data_at : Bool → Bool → ℕ → ℕ → Transmit.Tx
    data_at p c buffer n = Transmit.at Transmit.data_state p c buffer n

    hold :
        (n b : ℕ) (bs : List ℕ) (p c : Bool) (buffer : ℕ)
        → Feeds
            (data_at p c buffer n)
            (b ∷ bs)
            (replicate (suc n) (byte_in base rate b))
            (data_at (flips (suc n) p) c buffer rate)
            bs
    hold zero b bs p c buffer =
        feed_on _ _ _ (b ∷ bs) bs [] _ (last_cycle base rate rated b p c buffer) (feed_nil _ bs)
    hold (suc n) b bs p c buffer =
        feed_on _ _ _ (b ∷ bs) bs (replicate (suc n) (byte_in base rate b)) _
          (more_cycle base rate rated n b p c buffer) (hold n b bs (not p) c buffer)

    ended :
        (p c : Bool) (buffer : ℕ)
        → tx_step (data_at p c buffer rate) (quiet_in base rate) ≡ (
          Transmit.at Transmit.carrier_extend_1 (not p) c buffer rate,
          output true true end_of_packet ∷ [],
        )
    unfolding tx_step
    ended p c buffer = ground (arith, rated rate)

    extended_1 :
        (p c : Bool) (buffer : ℕ)
        → tx_step (Transmit.at Transmit.carrier_extend_1 p c buffer rate) (quiet_in base rate) ≡ (
          Transmit.at
              (if p then Transmit.start else Transmit.carrier_extend_2)
              (not p)
              c
              buffer
              rate,
          output false true carrier_extend ∷ [],
        )
    unfolding tx_step
    extended_1 p c buffer = ground (arith, rated rate)

    extended_2 :
        (p c : Bool) (buffer : ℕ)
        → tx_step (Transmit.at Transmit.carrier_extend_2 p c buffer rate) (quiet_in base rate) ≡ (
          Transmit.at Transmit.start (not p) c buffer rate,
          output false true carrier_extend ∷ [],
        )
    unfolding tx_step
    extended_2 p c buffer = ground (arith, rated rate)

    end_feed :
        (p c : Bool) (buffer : ℕ)
        → Feeds
            (data_at p c buffer rate)
            []
            (rest_in base rate p [])
            (Transmit.at Transmit.start false c buffer rate)
            []
    end_feed true c buffer =
        let quiet = quiet_in base rate in
        feed_on _ _ _ [] [] (quiet ∷ quiet ∷ []) _ (ended true c buffer) (
          feed_on _ _ _ [] [] (quiet ∷ []) _ (extended_1 false c buffer)
            (feed_on _ _ _ [] [] [] _ (extended_2 true c buffer) (feed_nil _ [])))
    end_feed false c buffer =
        let quiet = quiet_in base rate in
        feed_on _ _ _ [] [] (quiet ∷ []) _ (ended false c buffer)
          (feed_on _ _ _ [] [] [] _ (extended_1 true c buffer) (feed_nil _ []))

    rest_feed :
        (bs : List ℕ) (p c : Bool) (buffer : ℕ)
        → Feeds
            (data_at p c buffer rate)
            bs
            (rest_in base rate p bs)
            (Transmit.at Transmit.start false c buffer rate)
            []
    rest_feed [] p c buffer = end_feed p c buffer
    rest_feed (b ∷ bs) p c buffer =
        feed_append _ _ _ (b ∷ bs) bs [] (replicate (suc rate) (byte_in base rate b)) _
          (hold rate b bs p c buffer) (rest_feed bs (flips (suc rate) p) c buffer)

    first_feed :
        (n b : ℕ) (bs : List ℕ) (p c : Bool) (buffer : ℕ)
        → rate ≡ n
        → Feeds
            (Transmit.at Transmit.start p c buffer rate)
            (b ∷ bs)
            (byte_in base rate b ∷ replicate n (byte_in base rate b))
            (data_at (flips (suc n) p) c buffer rate)
            bs
    unfolding fed
    first_feed zero b bs p c buffer e =
        let fast : (rate == 0) ≡ true = ground arith in
        feed_on _ _ _ (b ∷ bs) bs [] _ (first_cycle base rate rated zero b p c buffer e)
          (rw (fast, e) (feed_nil (data_at (not p) c buffer 0) bs))
    first_feed (suc n) b bs p c buffer e =
        let slow : (rate == 0) ≡ false = ground arith in
        feed_on _ _ _ (b ∷ bs) bs (replicate (suc n) (byte_in base rate b)) _
          (first_cycle base rate rated (suc n) b p c buffer e)
          (rw slow (hold n b bs (not p) c buffer))

    length-rest_in : (bs : List ℕ) (p : Bool) → length (rest_in base rate p bs) ≡ rest_time p bs
    length-rest_in [] true = omega arith
    length-rest_in [] false = omega arith
    length-rest_in (b ∷ bs) p =
        let more = length-rest_in bs (flips (suc rate) p) in
        omega (
          arith,
          more,
          length-append (replicate (suc rate) (byte_in base rate b))
              (rest_in base rate (flips (suc rate) p) bs),
          length-replicate (suc rate) (byte_in base rate b),
        )

    pub frame_feed :
        (b : ℕ) (bs : List ℕ) (p c : Bool) (buffer : ℕ)
        → fed (Transmit.at Transmit.start p c buffer rate) (b ∷ bs) (frame_time p bs)
          ≡ frame_in base rate p b bs
    unfolding fed
    frame_feed b bs p c buffer =
        let q = flips (suc rate) p in
        let s = Transmit.at Transmit.start p c buffer rate in
        let head = byte_in base rate b ∷ replicate rate (byte_in base rate b) in
        let time : frame_time p bs ≡ length (head ++ rest_in base rate q bs) + 0 = omega (
          arith,
          length-append head (rest_in base rate q bs),
          length-replicate rate (byte_in base rate b),
          length-rest_in bs q,
        ) in
        ap (fed s (b ∷ bs)) time
        ∙ feed_append _ _ _ (b ∷ bs) bs [] head (rest_in base rate q bs)
            (first_feed rate b bs p c buffer refl) (rest_feed bs q c buffer) 0
        ∙ append-nil (head ++ rest_in base rate q bs)
