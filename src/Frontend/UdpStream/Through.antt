-- ===== src/Frontend/UdpStream/Through.antt =====
-- From LiteEthStream2UDPTX to LiteEthUDP2StreamRX in liteeth/frontend/stream.py.
use mathlib.Core.List.{append_assoc, append-nil}
use liteeth.Prelude.{ℕ, Bool, true, false, ◌+◌, ◌^◌, ◌<◌, ◌≡◌, refl, ap, sym, ◌∙◌}
use liteeth.Prelude.{◌&&◌, ◌==◌, ltb, if◌then◌else◌, arith}
use liteeth.Prelude.{List, [], ◌∷◌, ◌++◌, length}
use liteeth.Stream.Packets.{concat}
use liteeth.Stream.Fifo.{Fifo, FifoLaws, popped}
use liteeth.Machine.{ticks, outs}
use liteeth.Frontend.UdpStream.{idle, UserBeat, Config, Offer, Tx, taken}
use liteeth.Frontend.UdpStream.{tx_step, accepted, for_us, rx_step, handed}
use liteeth.Frontend.UdpStream.Datagrams.{beats, datagrams}
use liteeth.Frontend.UdpStream.Order.{tx_step-datagrams, queued_taken}

-- The bytes of the beats that are for the receiver.
abbrev pub bytes_for : Config → List UserBeat → List ℕ
bytes_for g [] = []
bytes_for g (x ∷ xs) = (if for_us g x then x.data_byte ∷ [] else []) ++ bytes_for g xs

bytes_for-append :
    (g : Config) (xs ys : List UserBeat) → bytes_for g (xs ++ ys) ≡ bytes_for g xs ++ bytes_for g ys
bytes_for-append g [] ys = refl
bytes_for-append g (x ∷ xs) ys =
    ap (λ t. (if for_us g x then x.data_byte ∷ [] else []) ++ t) (bytes_for-append g xs ys)
    ∙ sym (
        append_assoc (if for_us g x then x.data_byte ∷ [] else []) (bytes_for g xs)
          (bytes_for g ys))

taken_for :
    (g : Config) (v : Bool) (x : UserBeat) (w : Bool)
    → bytes_for g (if v && w then x ∷ [] else [])
      ≡ (if (v && for_us g x) && w then x.data_byte ∷ [] else [])
taken_for g false x w = refl
taken_for g true x true = by_for (for_us g x)
  where
    by_for :
        (b : Bool)
        → (if b then x.data_byte ∷ [] else []) ++ [] ≡ (if b && true then x.data_byte ∷ [] else [])
    by_for true = refl
    by_for false = refl
taken_for g true x false = by_for (for_us g x)
  where
    by_for : (b : Bool) → [] ≡ (if b && false then x.data_byte ∷ [] else [])
    by_for true = refl
    by_for false = refl

module _ (g : Config) (k : Fifo ℕ) (laws : FifoLaws g.fifo_depth k) where
  abbrev rx_offer : Offer UserBeat → Offer ℕ
  rx_offer o = record {
    valid = o.valid && for_us g o.payload;
    payload = o.payload.data_byte;
    ready = o.ready;
  }

  -- A cycle: what passes was first in the queue, and what enters is last.
  rx_out :
      (c : k.Carrier) (r : Bool) (q : List ℕ)
      → laws.contents c ≡ q
      → (if r && ltb 0 (k.level c) then k.payload c ∷ [] else []) ++ popped r q ≡ q
  rx_out c false [] e = refl
  rx_out c false (x ∷ q) e = refl
  rx_out c true [] e =
      let none : ltb 0 (k.level c) ≡ false = ground (arith, laws.level-contents c, ap length e) in
      rw none refl
  rx_out c true (x ∷ q) e =
      let some : ltb 0 (k.level c) ≡ true = ground (arith, laws.level-contents c, ap length e) in
      rw (some, laws.payload-contents c x q e) refl

  rx_one :
      (c : k.Carrier) (o : Offer UserBeat)
      → (rx_step g k c o).1 ++ laws.contents (rx_step g k c o).0
        ≡ laws.contents c ++ bytes_for g (taken g.fifo_depth (k.level c) o)
  unfolding rx_step
  rx_one c o =
      let q = laws.contents c in
      let out : List ℕ = if o.ready && ltb 0 (k.level c) then k.payload c ∷ [] else [] in
      let new = taken g.fifo_depth (length q) (rx_offer o) in
      let held : laws.contents (rx_step g k c o).0 ≡ popped o.ready q ++ new =
        laws.contents-clock c false (rx_offer o).valid (rx_offer o).payload o.ready
        ∙ queued_taken g.fifo_depth (rx_offer o) o.ready q
            ((rx_offer o).valid && ltb (length q) g.fifo_depth) refl in
      let same : new ≡ bytes_for g (taken g.fifo_depth (k.level c) o) =
        sym (taken_for g o.valid o.payload (ltb (length q) g.fifo_depth))
        ∙ ap (λ n. bytes_for g (taken g.fifo_depth n o)) (sym (laws.level-contents c)) in
      ap (λ t. out ++ t) held
      ∙ sym (append_assoc out (popped o.ready q) new)
      ∙ ap (λ t. t ++ new) (rx_out c o.ready q refl)
      ∙ ap (λ t. q ++ t) same

  rx_step-in_order :
      (c : k.Carrier) (os : List (Offer UserBeat))
      → outs (rx_step g k) c os ++ laws.contents (ticks (rx_step g k) c os)
        ≡ laws.contents c ++ bytes_for g (handed g k c os)
  unfolding ticks outs handed
  rx_step-in_order c [] = sym (append-nil (laws.contents c))
  rx_step-in_order c (o ∷ os) =
      let r = rx_step g k c o in
      let t = taken g.fifo_depth (k.level c) o in
      let rest = rx_step-in_order r.0 os in
      append_assoc r.1 (outs (rx_step g k) r.0 os) (laws.contents (ticks (rx_step g k) r.0 os))
      ∙ ap (λ a. r.1 ++ a) rest
      ∙ sym (append_assoc r.1 (laws.contents r.0) (bytes_for g (handed g k r.0 os)))
      ∙ ap (λ a. a ++ bytes_for g (handed g k r.0 os)) (rx_one c o)
      ∙ append_assoc (laws.contents c) (bytes_for g t) (bytes_for g (handed g k r.0 os))
      ∙ ap (λ a. laws.contents c ++ a) (sym (bytes_for-append g t (handed g k r.0 os)))

-- The stack gives a beat that arrives the address that it comes from.
abbrev pub arriving : ℕ → List UserBeat → List UserBeat
arriving sender [] = []
arriving sender (x ∷ xs) = record x { ip_address = sender } ∷ arriving sender xs

arriving-append :
    (sender : ℕ) (xs ys : List UserBeat)
    → arriving sender (xs ++ ys) ≡ arriving sender xs ++ arriving sender ys
arriving-append sender [] ys = refl
arriving-append sender (x ∷ xs) ys =
    ap (λ t. record x { ip_address = sender } ∷ t) (arriving-append sender xs ys)

module _ (g h : Config) (port : g.udp_port ≡ h.udp_port) where
  bytes_for-beats :
      (level counter : ℕ) (xs : List ℕ)
      → bytes_for h (arriving h.ip_address (beats g level counter xs)) ≡ xs
  bytes_for-beats level counter [] = refl
  bytes_for-beats level counter (x ∷ xs) =
      let own : (h.ip_address == h.ip_address) ≡ true = ground arith in
      let our : (g.udp_port == h.udp_port) ≡ true = ground arith in
      rw (own, our) (ap (λ t. x ∷ t) (bytes_for-beats level (counter + 1) xs))

  bytes_for-datagrams :
      (ds : List (List ℕ)) → bytes_for h (arriving h.ip_address (datagrams g ds)) ≡ concat ds
  bytes_for-datagrams [] = refl
  bytes_for-datagrams (d ∷ ds) =
      let first = beats g (length d) 0 d in
      rw
        (
          arriving-append h.ip_address first (datagrams g ds),
          bytes_for-append h (arriving h.ip_address first) (arriving h.ip_address (datagrams g ds)),
          bytes_for-beats (length d) 0 d,
          bytes_for-datagrams ds,
        )
        refl

  bytes_for-all :
      (ds : List (List ℕ)) (level : ℕ) (part : List ℕ)
      → bytes_for h (arriving h.ip_address (datagrams g ds ++ beats g level 0 part))
        ≡ concat ds ++ part
  bytes_for-all ds level part =
      rw
        (
          arriving-append h.ip_address (datagrams g ds) (beats g level 0 part),
          bytes_for-append h (arriving h.ip_address (datagrams g ds))
              (arriving h.ip_address (beats g level 0 part)),
          bytes_for-datagrams ds,
          bytes_for-beats level 0 part,
        )
        refl

-- From empty FIFOs, when the beats that the receiver's sink takes are those that the transmitter
-- has sent, with the address that the receiver is for, and the ports are the same, the bytes that
-- the transmitter has accepted are, in order, those that the receiver has passed, those in its FIFO
-- and those in the transmitter's FIFO, whatever the schedules, for a `send_level` above 0 and
-- registers that hold the depth of the FIFO.
pub handed-tx_step :
    (g h : Config) (k j : Fifo ℕ) (kl : FifoLaws g.fifo_depth k) (jl : FifoLaws h.fifo_depth j)
    → g.fifo_depth < 2 ^ g.width
    → 0 < g.send_level
    → g.udp_port ≡ h.udp_port
    → (s : Tx k.Carrier) (os : List (Offer ℕ)) (c : j.Carrier) (ps : List (Offer UserBeat))
    → s.fsm ≡ idle
    → kl.contents s.fifo ≡ []
    → jl.contents c ≡ []
    → handed h j c ps ≡ arriving h.ip_address (outs (tx_step g k) s os)
    → accepted g k s os
      ≡ (outs (rx_step h j) c ps ++ jl.contents (ticks (rx_step h j) c ps))
        ++ kl.contents (ticks (tx_step g k) s os).fifo
handed-tx_step g h k j kl jl wide some_level port s os c ps i e f network =
    let d = tx_step-datagrams g k kl wide some_level s os i e in
    let arrived : outs (rx_step h j) c ps ++ jl.contents (ticks (rx_step h j) c ps)
        ≡ concat d.whole ++ d.part =
      rx_step-in_order h j jl c ps
      ∙ ap (λ q. q ++ bytes_for h (handed h j c ps)) f
      ∙ ap (bytes_for h) (network ∙ ap (arriving h.ip_address) d.parts)
      ∙ bytes_for-all g h port d.whole (ticks (tx_step g k) s os).level d.part in
    let left = kl.contents (ticks (tx_step g k) s os).fifo in
    d.kept ∙ sym (append_assoc (concat d.whole) d.part left) ∙ ap (λ t. t ++ left) (sym arrived)
