-- ===== src/Mac/Receive/AnyFifo.antt =====
-- The CRC checker of liteeth/mac/crc.py on any FIFO, beside the same on the list.
use liteeth.Prelude.{ℕ, Bool, ◌&&◌, ◌==◌, ◌≡◌, refl, ap, arith, List, [], ◌∷◌, length}
use liteeth.Stream.{Beat, Cycle, line, emit, run}
use liteeth.Stream.Fifo.{Fifo, FifoLaws, first, list_fifo}
use liteeth.Stream.Compose.{Simulates, run-Simulates, compose-Simulates}
use liteeth.Mac.Preamble as Preamble
use liteeth.Mac.Preamble.{CheckerState, hunt}
use liteeth.Mac.Crc.Checker.{State, CrcChecker, check_step, or_error}
use liteeth.Mac.Crc.Crc32.{error}
use liteeth.Mac.Receive.{chained_step}
use liteeth.Mac.Receive.Stream.{depth}

module _ (junk : Beat) (k : Fifo Beat) (laws : FifoLaws depth k) where
  abbrev pub listed : CrcChecker k.Carrier → CrcChecker (List Beat)
  listed r = record { fsm = r.fsm; reg = r.reg; fifo = laws.contents r.fifo }

  abbrev checker : State → List Bool → List Beat → CrcChecker (List Beat)
  checker s reg q = record { fsm = s; reg = reg; fifo = q }

  abbrev marked : Bool → ℕ → Beat → Beat
  marked last e x = record x { last = last; error = e }

  same_beat :
      (c : k.Carrier) (q : List Beat) (valid ready last : Bool) (e : ℕ)
      → laws.contents c ≡ q
      → emit ((valid && length q == 4) && ready) (marked last e (k.payload c))
        ≡ emit ((valid && length q == 4) && ready) (marked last e (first junk q))
  same_beat c [] valid ready last e h = ground arith
  same_beat c (x ∷ q) valid ready last e h =
      let oldest : k.payload c ≡ x = laws.payload-contents c x q h in
      ap (λ y. emit ((valid && length (x ∷ q) == 4) && ready) (marked last e y)) oldest

  check-Simulates : Simulates listed (check_step 8 k) (check_step 8 (list_fifo depth junk))
  unfolding check_step
  check-Simulates r d ready =
      let same : k.level r.fifo ≡ length (laws.contents r.fifo) = laws.level-contents r.fifo in
      rw same (
        ap (checker _ _) (laws.contents-clock r.fifo _ _ _ _),
        refl,
        same_beat r.fifo (laws.contents r.fifo) d.valid ready d.beat.last
            (or_error d.beat.error (error 8 r.reg d.beat.data_word)) refl,
      )

  pub receive-listed :
      (r : CrcChecker k.Carrier) (xs : List Beat) (cs : List (Cycle Beat))
      → run (chained_step k) (line (hunt, r) xs) cs
        ≡ run (chained_step (list_fifo depth junk)) (line (hunt, listed r) xs) cs
  receive-listed r xs cs =
      run-Simulates (λ (p : CheckerState × CrcChecker k.Carrier). (p.0, listed p.1))
        (chained_step k) (chained_step (list_fifo depth junk)) (line (hunt, r) xs) cs
        (compose-Simulates Preamble.check_step (check_step 8 k)
          (check_step 8 (list_fifo depth junk)) listed check-Simulates)
