-- ===== src/Mac/Receive/Buffered.antt =====
-- The receiving side of liteeth/mac/core.py with the buffer at the CRC checker's sink, towards a
-- downstream that is ready: a cycle behind the two checkers alone.
use liteeth.Prelude.{Bool, true, false, ◌≤◌, ◌&&◌, ◌||◌, not, ◌≡◌, refl, ap, ap₂, sym, ◌∙◌}
use liteeth.Prelude.{List, [], ◌∷◌, ◌++◌, map, length, arith}
use liteeth.Stream.{
  Beat, Cycle, Drive, Line, line, drive, accept, emit, after, out, run, willing_count,
}
use liteeth.Stream.Fifo.{Fifo, FifoLaws}
use liteeth.Stream.Buffer.{Buffer, BufferLaws}
use liteeth.Stream.Packets.{concat}
use liteeth.Mac.Preamble.{CheckerState, hunt, copying, check_step}
use liteeth.Mac.Crc.Checker as Checker
use liteeth.Mac.Crc.Checker.{CrcChecker, reset}
use liteeth.Mac.Receive.{chained_step, receive_step}
use liteeth.Mac.Receive.Stream.{depth}
use liteeth.Mac.Receive.Body.{unflagged}
use liteeth.Mac.Receive.Frame.{Frame}
use liteeth.Mac.Receive.Packets.{wire, judged, AreFrames, run-chained_step}

abbrev pub AllReady : List (Cycle Beat) → Type 0
AllReady [] = Unit
AllReady (c ∷ cs) = (c.ready ≡ true) × AllReady cs

-- The preamble checker looks at `ready` where it offers a beat, and no more.
offered : CheckerState → Drive Beat → Drive Beat
unfolding check_step
offered p d = (check_step p d false).1.source

loads_free : (v : Bool) → not v || v ≡ true
loads_free true = refl
loads_free false = refl

same_next :
    (p : CheckerState) (d : Drive Beat)
    → (check_step p d (offered p d).valid).0 ≡ (check_step p d true).0
unfolding check_step offered
same_next hunt d = refl
same_next copying d = ground arith

taken_alone :
    (p : CheckerState) (d : Drive Beat)
    → (d.valid && (check_step p d (offered p d).valid).1.ready ≡ d.valid)
      × (d.valid && not (check_step p d (offered p d).valid).1.ready ≡ false)
unfolding check_step offered
taken_alone hunt d = ground arith
taken_alone copying d = ground arith

taken_buffered :
    (p : CheckerState) (d : Drive Beat)
    → (d.valid && (check_step p d true).1.ready ≡ d.valid)
      × (d.valid && not (check_step p d true).1.ready ≡ false)
unfolding check_step
taken_buffered hunt d = ground arith
taken_buffered copying d = ground arith

module _ (b : Buffer Beat) (bl : BufferLaws b) (k : Fifo Beat) where
  abbrev Regs : Type 0
  Regs = CheckerState × (b.Carrier × CrcChecker k.Carrier)

  abbrev checked : CrcChecker k.Carrier → Drive Beat → CrcChecker k.Carrier
  checked r d = (Checker.check_step 8 k r d true).0

  abbrev passed : CrcChecker k.Carrier → Drive Beat → List Beat
  passed r d =
      let w = (Checker.check_step 8 k r d true).1 in emit (w.source.valid && true) w.source.beat

  -- Towards a ready downstream the checker takes what it is offered.
  takes :
      (r : CrcChecker k.Carrier) (d : Drive Beat)
      → (Checker.check_step 8 k r d true).1.ready ≡ d.valid
  unfolding Checker.check_step
  takes r d = ground arith

  abbrev alone :
      CheckerState
      → CrcChecker k.Carrier
      → Bool
      → List Beat
      → Line (CheckerState × CrcChecker k.Carrier) Beat
  alone p r h xs = record { regs = (p, r); held = h; left = xs }

  abbrev behind :
      CheckerState → b.Carrier → CrcChecker k.Carrier → Bool → List Beat → Line Regs Beat
  behind p c r h xs = record { regs = (p, (c, r)); held = h; left = xs }

  after-alone :
      (p : CheckerState) (r : CrcChecker k.Carrier) (h : Bool) (xs : List Beat) (c : Cycle Beat)
      → c.ready ≡ true
      → let d = drive h c xs in
        after (chained_step k) (alone p r h xs) c
        ≡ alone (check_step p d true).0 (checked r (offered p d)) false (accept d.valid xs)
  unfolding offered
  after-alone p r h xs c e =
      let d = drive h c xs in
      rw (e, takes r (offered p d), same_next p d, (taken_alone p d).0, (taken_alone p d).1) refl

  after_buffered :
      (p : CheckerState) (c0 : b.Carrier) (r : CrcChecker k.Carrier) (h : Bool) (xs : List Beat)
      (c : Cycle Beat)
      → c.ready ≡ true
      → let d = drive h c xs in
        after (receive_step b k) (behind p c0 r h xs) c
        ≡ behind
            (check_step p d true).0
            (b.clock c0 (offered p d) (bl.held c0).valid).0
            (checked r (bl.held c0))
            false
            (accept d.valid xs)
  unfolding offered
  after_buffered p c0 r h xs c e =
      let d = drive h c xs in
      let held = bl.held c0 in
      rw
        (
          e,
          bl.source-held c0 (offered p d) false,
          takes r held,
          bl.ready-held c0 (offered p d) held.valid,
          loads_free held.valid,
          (taken_buffered p d).0,
          (taken_buffered p d).1,
        )
        refl

  out_buffered :
      (p : CheckerState) (c0 : b.Carrier) (r : CrcChecker k.Carrier) (h : Bool) (xs : List Beat)
      (c : Cycle Beat)
      → c.ready ≡ true
      → out (receive_step b k) (behind p c0 r h xs) c ≡ passed r (bl.held c0)
  unfolding offered
  out_buffered p c0 r h xs c e = rw (e, bl.source-held c0 (offered p (drive h c xs)) false) refl

  out-alone :
      (p : CheckerState) (r : CrcChecker k.Carrier) (h : Bool) (xs : List Beat) (c : Cycle Beat)
      → c.ready ≡ true
      → out (chained_step k) (alone p r h xs) c ≡ passed r (offered p (drive h c xs))
  unfolding offered
  out-alone p r h xs c e = rw e refl

  -- What the buffer takes on one cycle the checker gets on the next.
  next_held : (c0 : b.Carrier) (d : Drive Beat) → bl.held (b.clock c0 d (bl.held c0).valid).0 ≡ d
  next_held c0 d = rw (bl.held-clock c0 d (bl.held c0).valid, loads_free (bl.held c0).valid) refl

  a_cycle_behind :
      (p : CheckerState) (c0 : b.Carrier) (r : CrcChecker k.Carrier) (h : Bool) (xs : List Beat)
      (cs : List (Cycle Beat)) (c : Cycle Beat)
      → AllReady cs
      → c.ready ≡ true
      → run (receive_step b k) (behind p c0 r h xs) (cs ++ (c ∷ []))
        ≡ passed r (bl.held c0) ++ run (chained_step k) (alone p (checked r (bl.held c0)) h xs) cs
  unfolding run
  a_cycle_behind p c0 r h xs [] c all e = ap (λ t. t ++ []) (out_buffered p c0 r h xs c e)
  a_cycle_behind p c0 r h xs (c' ∷ cs) c all e =
      let d = drive h c' xs in
      let held = bl.held c0 in
      let r' = checked r held in
      let c1 = (b.clock c0 (offered p d) held.valid).0 in
      let rest =
        a_cycle_behind (check_step p d true).0 c1 r' false (accept d.valid xs) cs c all.1 e in
      let same = next_held c0 (offered p d) in
      ap₂ ◌++◌ (out_buffered p c0 r h xs c' all.0) (
        ap (λ l. run (receive_step b k) l (cs ++ (c ∷ []))) (after_buffered p c0 r h xs c' all.0)
        ∙ rest
        ∙ ap
            (λ t.
              passed r' t
              ++ run (chained_step k)
                  (alone (check_step p d true).0 (checked r' t) false (accept d.valid xs)) cs)
            same
        ∙ sym (
            ap₂ ◌++◌ (out-alone p r' h xs c' all.0)
              (ap (λ l. run (chained_step k) l cs) (after-alone p r' h xs c' all.0))))

-- What the buffer holds from its reset on.
abbrev pub empty : Drive Beat
empty = record {
  valid = false;
  beat = record { last = false; data_word = 0; last_be = 0; error = 0 };
}

abbrev start : Cycle Beat
start = record { offer = false; ready = true; rest = empty.beat }

drive-start : (xs : List Beat) → drive false start xs ≡ empty
drive-start [] = refl
drive-start (x ∷ xs) = refl

accept_none : (xs : List Beat) → accept false xs ≡ xs
accept_none [] = refl
accept_none (x ∷ xs) = refl

module _ (b : Buffer Beat) (bl : BufferLaws b) (k : Fifo Beat) (laws : FifoLaws depth k) where
  from_empty :
      (c0 : b.Carrier) (r : CrcChecker k.Carrier) (xs : List Beat) (cs : List (Cycle Beat))
      (c : Cycle Beat)
      → bl.held c0 ≡ empty
      → AllReady cs
      → c.ready ≡ true
      → run (receive_step b k) (line (hunt, (c0, r)) xs) (cs ++ (c ∷ []))
        ≡ run (chained_step k) (line (hunt, r) xs) (start ∷ cs)
  unfolding run offered check_step
  from_empty c0 r xs cs c none all e =
      a_cycle_behind b bl k hunt c0 r false xs cs c all e
      ∙ ap
          (λ t.
            passed b bl k r t
            ++ run (chained_step k) (alone b bl k hunt (checked b bl k r t) false xs) cs)
          none
      ∙ sym (
          ap₂ ◌++◌
            (out-alone b bl k hunt r false xs start refl
              ∙ ap (λ d. passed b bl k r (offered hunt d)) (drive-start xs))
            (ap (λ l. run (chained_step k) l cs)
              (after-alone b bl k hunt r false xs start refl
                ∙ ap
                    (λ d.
                      alone b bl k (check_step hunt d true).0 (checked b bl k r (offered hunt d))
                        false (accept d.valid xs))
                    (drive-start xs)
                ∙ ap (λ ys. alone b bl k hunt (checked b bl k r empty) false ys) (accept_none xs))))

  -- At 8 bits, of frames that have a packet and a trailer of four bytes behind their preamble, the
  -- preamble checker with the buffer and the CRC checker behind it passes on the packets, whose
  -- last beat has the error 0 when the trailer is the packet's CRC and 1 when it is not (the error
  -- of other beats is not looked at). This holds on any FIFO and any buffer that obey their laws,
  -- from a CRC checker in RESET whose queue holds at most four beats and an empty buffer before it,
  -- whatever the stalls of the wire, when the downstream is ready on every cycle, and there are as
  -- many willing cycles as beats and one cycle more.
  pub run-receive_step :
      (c0 : b.Carrier) (r : CrcChecker k.Carrier) (fs : List Frame) (cs : List (Cycle Beat))
      (c : Cycle Beat)
      → bl.held c0 ≡ empty
      → length (laws.contents r.fifo) ≤ 4
      → AreFrames fs
      → AllReady cs
      → c.ready ≡ true
      → length (concat (map wire fs)) ≤ willing_count cs
      → map unflagged (
          run
            (receive_step b k)
            (line (hunt, (c0, record r { fsm = reset })) (concat (map wire fs)))
            (cs ++ (c ∷ [])))
        ≡ concat (map judged fs)
  unfolding willing_count
  run-receive_step c0 r fs cs c none small are all e enough =
      ap (map unflagged)
        (from_empty c0 (record r { fsm = reset }) (concat (map wire fs)) cs c none all e)
      ∙ run-chained_step k laws r fs (start ∷ cs) small are (omega (arith, enough))
