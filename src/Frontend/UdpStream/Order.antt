-- ===== src/Frontend/UdpStream/Order.antt =====
-- LiteEthStream2UDPTX in liteeth/frontend/stream.py through any schedule: what it sends of what it
-- accepts.
use mathlib.Core.List.{append_assoc, append-nil}
use liteeth.Prelude.{ℕ, Bool, true, false, ◌+◌, ◌^◌, ◌≤◌, ◌<◌, ◌≡◌, refl, ap, sym, ◌∙◌}
use liteeth.Prelude.{◌&&◌, ◌==◌, ltb, leb, if◌then◌else◌, arith}
use liteeth.Prelude.{List, [], ◌∷◌, ◌++◌, length, length-append}
use liteeth.Stream.Fifo.{Fifo, FifoLaws, popped, queued}
use liteeth.Machine.{ticks, outs}
use liteeth.Frontend.UdpStream.{State, idle, send, UserBeat, Config, Offer, Tx, tx_at, taken}
use liteeth.Frontend.UdpStream.{tx_step, accepted}
use liteeth.Frontend.UdpStream.Datagrams.{Sending, idle_step, wait_step, send_step}

-- A cycle of the queue, by what it held.
module _ (depth : ℕ) (o : Offer ℕ) where
  pub queued_taken :
      (r : Bool) (q : List ℕ) (b : Bool)
      → (o.valid && ltb (length q) depth) ≡ b
      → (if b then popped r q ++ (o.payload ∷ []) else popped r q)
        ≡ popped r q ++ (if b then o.payload ∷ [] else [])
  queued_taken r q true e = refl
  queued_taken r q false e = sym (append-nil (popped r q))

popped_none : (q : List ℕ) → popped false q ≡ q
popped_none [] = refl
popped_none (x ∷ q) = refl

abbrev pub offer : Bool → ℕ → Bool → Offer ℕ
offer v d r = record { valid = v; payload = d; ready = r }

module _ (g : Config) (k : Fifo ℕ) (laws : FifoLaws g.fifo_depth k) where
  abbrev pub taking : k.Carrier → Offer ℕ → List ℕ
  taking c o = taken g.fifo_depth (k.level c) o

  pub after :
      (c : k.Carrier) (o : Offer ℕ) (r : Bool) (q : List ℕ)
      → laws.contents c ≡ q
      → laws.contents (k.clock false o.valid o.payload r c) ≡ popped r q ++ taking c o
  after c o r q e =
      let level : length q ≡ k.level c = ap length (sym e) ∙ sym (laws.level-contents c) in
      laws.contents-clock c false o.valid o.payload r
      ∙ ap (queued g.fifo_depth false o.valid o.payload r) e
      ∙ queued_taken g.fifo_depth o r q (o.valid && ltb (length q) g.fifo_depth) refl
      ∙ ap (λ n. popped r q ++ taken g.fifo_depth n o) level

  fits_after :
      (c : k.Carrier) (o : Offer ℕ) (q : List ℕ)
      → length q ≤ k.level c
      → length q ≤ g.fifo_depth
      → length (q ++ taking c o) ≤ g.fifo_depth
  fits_after c o q l f =
      let more : length (q ++ taking c o) ≡ length q + length (taking c o) =
        length-append q (taking c o) in
      ground arith

  abbrev pub SendingAt : List ℕ → List UserBeat → Tx k.Carrier → Type 0
  SendingAt acc sent s = Sending g acc sent s.fsm s.level s.counter (laws.contents s.fifo)

  abbrev Steps : List ℕ → List UserBeat → State → ℕ → ℕ → k.Carrier → Offer ℕ → Type 0
  Steps acc sent fsm level counter c o =
      SendingAt (acc ++ taking c o) (sent ++ (tx_step g k (tx_at fsm level counter c) o).1)
        (tx_step g k (tx_at fsm level counter c) o).0

  module _ {acc : List ℕ} {sent : List UserBeat} (wide : g.fifo_depth < 2 ^ g.width)
      (some_level : 0 < g.send_level) where
    send_at :
        (level counter : ℕ) (c : k.Carrier) (v : Bool) (d : ℕ) (r : Bool) (q : List ℕ)
        → laws.contents c ≡ q
        → SendingAt acc sent (tx_at send level counter c)
        → Steps acc sent send level counter c (offer v d r)
    unfolding tx_step
    send_at level counter c v d false q e h =
        let o = offer v d false in
        let held : Sending g acc sent send level counter q = rw e at h in
        let same = after c o false q e ∙ ap (λ p. p ++ taking c o) (popped_none q) in
        rw same (
          wait_step g (taking c o) wide some_level
            (fits_after c o q (omega (arith, laws.level-contents c, ap length e)) held.fits) held)
    send_at level counter c v d true [] e h =
        let held : Sending g acc sent send level counter [] = rw e at h in
        absurd (omega (arith, held.midway.1, held.midway.2))
    send_at level counter c v d true (x ∷ q) e h =
        let o = offer v d true in
        let held : Sending g acc sent send level counter (x ∷ q) = rw e at h in
        rw (after c o true (x ∷ q) e, laws.payload-contents c x q e)
          (send_step g (taking c o) wide (counter + 1 == level) refl
            (fits_after c o q (omega (arith, laws.level-contents c, ap length e))
              (omega (arith, held.fits)))
            held)

    idle_at :
        (level counter : ℕ) (c : k.Carrier) (v : Bool) (d : ℕ) (r : Bool)
        → SendingAt acc sent (tx_at idle level counter c)
        → Steps acc sent idle level counter c (offer v d r)
    unfolding tx_step
    idle_at level counter c v d r h =
        let o = offer v d r in
        let q = laws.contents c in
        let same = after c o false q refl ∙ ap (λ p. p ++ taking c o) (popped_none q) in
        rw same (
          idle_step g (taking c o) wide some_level (k.level c) (leb g.send_level (k.level c))
            (laws.level-contents c) refl
            (fits_after c o q (omega (arith, laws.level-contents c)) h.fits) h)

    step_at :
        (s : Tx k.Carrier) (o : Offer ℕ)
        → SendingAt acc sent s
        → Steps acc sent s.fsm s.level s.counter s.fifo o
    step_at s o h = at_fsm s.fsm h
      where
        at_fsm :
            (fsm : State)
            → SendingAt acc sent (tx_at fsm s.level s.counter s.fifo)
            → Steps acc sent fsm s.level s.counter s.fifo o
        at_fsm idle h = idle_at s.level s.counter s.fifo o.valid o.payload o.ready h
        at_fsm send h =
            send_at s.level s.counter s.fifo o.valid o.payload o.ready (laws.contents s.fifo) refl h

  module _ (wide : g.fifo_depth < 2 ^ g.width) (some_level : 0 < g.send_level) where
    run_Sending :
        (acc : List ℕ) (sent : List UserBeat) (s : Tx k.Carrier) (os : List (Offer ℕ))
        → SendingAt acc sent s
        → SendingAt
            (acc ++ accepted g k s os)
            (sent ++ outs (tx_step g k) s os)
            (ticks (tx_step g k) s os)
    unfolding ticks outs accepted
    run_Sending acc sent s [] h = rw (append-nil acc, append-nil sent) h
    run_Sending acc sent s (o ∷ os) h =
        let r = tx_step g k s o in
        rw
          (
            sym (append_assoc acc (taking s.fifo o) (accepted g k r.0 os)),
            sym (append_assoc sent r.1 (outs (tx_step g k) r.0 os)),
          )
          (run_Sending (acc ++ taking s.fifo o) (sent ++ r.1) r.0 os
            (step_at wide some_level s o h))

    -- From IDLE with an empty FIFO, whatever the schedule, what the transmitter of the stream has
    -- sent is whole datagrams and a part of one, each beat with the length of its datagram and
    -- `last` on its last one only, each datagram of `send_level` to `fifo_depth` bytes; these bytes
    -- and those in the FIFO are, in order, the accepted ones, and in SEND the FIFO holds the bytes
    -- that the datagram lacks, for a `send_level` above 0 and registers that hold the depth of the
    -- FIFO.
    pub tx_step-datagrams :
        (s : Tx k.Carrier) (os : List (Offer ℕ))
        → s.fsm ≡ idle
        → laws.contents s.fifo ≡ []
        → SendingAt (accepted g k s os) (outs (tx_step g k) s os) (ticks (tx_step g k) s os)
    tx_step-datagrams s os i e = run_Sending [] [] s os (
        rw (i, e)
          record {
            whole = [];
            part = [];
            sized = tt;
            parts = refl;
            kept = refl;
            midway = refl;
            fits = omega arith;
          })
