-- ===== src/Frontend/UdpStream/Ready.antt =====
-- LiteEthStream2UDPTX in liteeth/frontend/stream.py towards a source that is ready.
use mathlib.Core.List.{append_assoc}
use native.Mathlib.Nat.{mod-eq_of_lt}
use liteeth.Prelude.{ℕ, Bool, true, false, ◌+◌, ◌%◌, ◌^◌, ◌≤◌, ◌<◌, ◌≡◌, refl, ap, ◌∙◌}
use liteeth.Prelude.{◌==◌, leb, if◌then◌else◌, arith}
use liteeth.Prelude.{List, [], ◌∷◌, ◌++◌, length}
use liteeth.Stream.Fifo.{Fifo, FifoLaws}
use liteeth.Machine.{ticks, outs}
use liteeth.Frontend.UdpStream.{idle, send, UserBeat, Config, Offer, Tx, tx_at}
use liteeth.Frontend.UdpStream.{tx_step, send_beat}
use liteeth.Frontend.UdpStream.Datagrams.{beats}
use liteeth.Frontend.UdpStream.Order.{after, taking}

abbrev pub AllReady : List (Offer ℕ) → Type 0
AllReady [] = Unit
AllReady (o ∷ os) = (o.ready ≡ true) × AllReady os

module _ (g : Config) (k : Fifo ℕ) (laws : FifoLaws g.fifo_depth k)
    (wide : g.fifo_depth < 2 ^ g.width) where
  abbrev Passes : Tx k.Carrier → List (Offer ℕ) → List UserBeat → Type 0
  Passes s os bs = (outs (tx_step g k) s os ≡ bs) × ((ticks (tx_step g k) s os).fsm ≡ idle)

  Passes-on :
      (s : Tx k.Carrier) {s' : Tx k.Carrier} (o : Offer ℕ) (os : List (Offer ℕ))
      {b bs : List UserBeat}
      → tx_step g k s o ≡ (s', b)
      → Passes s' os bs
      → Passes s (o ∷ os) (b ++ bs)
  unfolding ticks outs
  Passes-on s o os {b} e h = (
    ap (λ r. r.1 ++ outs (tx_step g k) r.0 os) e ∙ ap (λ t. b ++ t) h.0,
    ap (λ r. (ticks (tx_step g k) r.0 os).fsm) e ∙ h.1,
  )

  ready_step :
      (level counter : ℕ) (c : k.Carrier) (o : Offer ℕ) (x : ℕ) (q : List ℕ) (b : Bool)
      → (counter + 1 == level) ≡ b
      → o.ready ≡ true
      → laws.contents c ≡ x ∷ q
      → tx_step g k (tx_at send level counter c) o ≡ (
        tx_at
            (if b then idle else send)
            level
            ((counter + 1) % 2 ^ g.width)
            (k.clock false o.valid o.payload true c),
        send_beat g level counter x ∷ [],
      )
  unfolding tx_step
  ready_step level counter c o x q b f r e = rw (r, f, laws.payload-contents c x q e) refl

  Passes-rest :
      (level counter : ℕ) (c : k.Carrier) (x : ℕ) (xs zs : List ℕ) (os : List (Offer ℕ))
      → laws.contents c ≡ (x ∷ xs) ++ zs
      → level ≡ counter + length (x ∷ xs)
      → level ≤ g.fifo_depth
      → AllReady os
      → length os ≡ length (x ∷ xs)
      → Passes (tx_at send level counter c) os (beats g level counter (x ∷ xs))
  unfolding ticks outs
  Passes-rest level counter c x xs zs [] e l d r n = absurd (omega (arith, n))
  Passes-rest level counter c x [] zs (o ∷ []) e l d r n =
      let at_end : (counter + 1 == level) ≡ true = ground arith in
      Passes-on _ o [] (ready_step level counter c o x zs true at_end r.0 e) (refl, refl)
  Passes-rest level counter c x [] zs (o ∷ p ∷ os) e l d r n = absurd (omega (arith, n))
  Passes-rest level counter c x (y ∷ xs) zs (o ∷ os) e l d r n =
      let on : (counter + 1 == level) ≡ false = ground arith in
      let small : (counter + 1) % 2 ^ g.width ≡ counter + 1 =
        mod-eq_of_lt (omega (arith, l, d, wide)) in
      let new = k.clock false o.valid o.payload true c in
      let held : laws.contents new ≡ (y ∷ xs) ++ (zs ++ taking g k laws c o) =
        after g k laws c o true (x ∷ y ∷ (xs ++ zs)) e
        ∙ append_assoc (y ∷ xs) zs (taking g k laws c o) in
      let rest =
        Passes-rest level (counter + 1) new y xs (zs ++ taking g k laws c o) os held
          (omega (arith, l)) d r.1 (omega (arith, n)) in
      Passes-on _ o os
        (ready_step level counter c o x (y ∷ (xs ++ zs)) false on r.0 e
          ∙ ap (λ n. (tx_at send level n new, send_beat g level counter x ∷ [])) small)
        rest

  idle_on :
      (level counter : ℕ) (c : k.Carrier) (o : Offer ℕ) (n : ℕ)
      → k.level c ≡ n
      → g.send_level ≤ n
      → n ≤ g.fifo_depth
      → tx_step g k (tx_at idle level counter c) o
        ≡ (tx_at send n 0 (k.clock false o.valid o.payload false c), [])
  unfolding tx_step
  idle_on level counter c o n e l d =
      let small : n % 2 ^ g.width ≡ n = mod-eq_of_lt (omega (arith, d, wide)) in
      let enough : leb g.send_level n ≡ true = ground arith in rw (e, enough, small) refl

  -- In IDLE with `send_level` bytes or more in the FIFO, at least one and no more than its depth,
  -- the transmitter of the stream sends these bytes as one datagram and is in IDLE again after one
  -- cycle more than there are bytes, when the source is ready on all but the first, whatever the
  -- sink offers, and the registers hold the depth of the FIFO.
  pub tx_step-when_ready :
      (level counter : ℕ) (c : k.Carrier) (x : ℕ) (xs : List ℕ) (o : Offer ℕ) (os : List (Offer ℕ))
      → laws.contents c ≡ x ∷ xs
      → g.send_level ≤ length (x ∷ xs)
      → length (x ∷ xs) ≤ g.fifo_depth
      → AllReady os
      → length os ≡ length (x ∷ xs)
      → let s = tx_at idle level counter c in
        (outs (tx_step g k) s (o ∷ os) ≡ beats g (length (x ∷ xs)) 0 (x ∷ xs))
        × ((ticks (tx_step g k) s (o ∷ os)).fsm ≡ idle)
  unfolding ticks outs
  tx_step-when_ready level counter c x xs o os e l d r n =
      let new = k.clock false o.valid o.payload false c in
      let held : laws.contents new ≡ (x ∷ xs) ++ taking g k laws c o =
        after g k laws c o false (x ∷ xs) e in
      let queue : k.level c ≡ length (x ∷ xs) = laws.level-contents c ∙ ap length e in
      Passes-on _ o os (idle_on level counter c o (length (x ∷ xs)) queue l d)
        (Passes-rest (length (x ∷ xs)) 0 new x xs (taking g k laws c o) os held (omega arith) d r n)
