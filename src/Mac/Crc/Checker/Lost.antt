-- ===== src/Mac/Crc/Checker/Lost.antt =====
-- A beat that comes right after a packet's last.
use liteeth.Prelude.{true, false, ◌≡◌, refl, ap, ◌∙◌, arith}
use liteeth.Prelude.{List, [], ◌∷◌, length, length-append}
use liteeth.Stream.{Beat, Cycle, line, run_end}
use liteeth.Stream.Fifo.{Fifo, FifoLaws, queued}
use liteeth.Mac.Crc.Crc32.{init, clock}
use liteeth.Mac.Crc.Checker.{CrcChecker, idle, copy, check_step}

abbrev pub willing_cycle : Beat → Cycle Beat
willing_cycle rest = record { offer = true; ready = true; rest = rest }

stays_full : (q : List Beat) (z : Beat) → length q ≡ 4 → length (queued 5 false true z true q) ≡ 4
stays_full [] z h = absurd (omega arith)
stays_full (y ∷ q) z h = ground (arith, length-append q (z ∷ []))

module _ (k : Fifo Beat) (laws : FifoLaws 5 k) (r : CrcChecker k.Carrier) (w x rest : Beat)
    (full : length (laws.contents r.fifo) ≡ 4) where
  -- A packet's last beat
  abbrev z : Beat
  z = record w { last = true }

  full_before : k.level r.fifo ≡ 4
  full_before = laws.level-contents r.fifo ∙ full

  full_after : k.level (k.clock false true z true r.fifo) ≡ 4
  full_after =
      laws.level-contents (k.clock false true z true r.fifo)
      ∙ ap length (laws.contents-clock r.fifo false true z true)
      ∙ stays_full (laws.contents r.fifo) z full

  -- At 8 bits, in COPY with four beats in the queue, when a packet's last beat and another beat are
  -- offered on two cycles on which the downstream is ready, the CRC checker takes both, and then is
  -- in IDLE with its register and its queue reset: the second beat is lost.
  pub lost_after_last :
      let end =
        run_end
          (check_step 8 k)
          (line (record r { fsm = copy }) (record w { last = true } ∷ x ∷ []))
          (willing_cycle rest ∷ willing_cycle rest ∷ []) in
      (end.left ≡ [])
      × (end.regs.fsm ≡ idle)
      × (end.regs.reg ≡ init)
      × (laws.contents end.regs.fifo ≡ [])
  unfolding run_end check_step clock
  lost_after_last = rw (full_before, full_after) (refl, refl, refl, laws.contents-clock _ _ _ _ _)
