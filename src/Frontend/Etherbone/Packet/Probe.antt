-- ===== src/Frontend/Etherbone/Packet/Probe.antt =====
-- Probes at the receiver, the probe and the transmitter of liteeth/frontend/etherbone.py.
use liteeth.Prelude.{ℕ, Bool, true, false, ◌-◌, ◌*◌, ◌≤◌, ◌≡◌, ◌==◌, refl, ap, ◌∙◌, arith, length}
use liteeth.Prelude.{List, [], ◌∷◌, ◌++◌, map, length-map, if◌then◌else◌}
use liteeth.Stream.{Cycle, Line, line, after, out, willing, willing_count, run}
use liteeth.Stream.Contract.{Contract, run_complete}
use liteeth.Frontend.Etherbone.Packet.{
  PacketBeat, TxState, RxState, ProbeState, with_header, kept, sel, tx_step,
}
use liteeth.Frontend.Etherbone.Packet.{etherbone_magic, probe_answer, rx_step, probe_step}

abbrev pub line_at : {S : Type 0} → S → Bool → List PacketBeat → Line S PacketBeat
line_at s h xs = record { regs = s; held = h; left = xs }

-- The packets whose first beat has the magic number.
abbrev pub admitted : RxState → List PacketBeat → List PacketBeat
admitted s [] = []
admitted RxState.idle (x ∷ xs) =
    if x.magic == etherbone_magic
    then x ∷ admitted (if x.last then RxState.idle else RxState.receive) xs
    else admitted (if x.last then RxState.idle else RxState.drop) xs
admitted RxState.receive (x ∷ xs) =
    x ∷ admitted (if x.last then RxState.idle else RxState.receive) xs
admitted RxState.drop (x ∷ xs) = admitted (if x.last then RxState.idle else RxState.drop) xs

abbrev rx_cost : RxState → List PacketBeat → ℕ
rx_cost s [] = 0
rx_cost RxState.idle (x ∷ xs) = 2 * length (x ∷ xs)
rx_cost RxState.receive (x ∷ xs) = 2 * length (x ∷ xs) - 1
rx_cost RxState.drop (x ∷ xs) = 2 * length (x ∷ xs) - 1

rx_cost_le : (s : RxState) (xs : List PacketBeat) → rx_cost s xs ≤ 2 * length xs
rx_cost_le s [] = omega arith
rx_cost_le RxState.idle (x ∷ xs) = omega arith
rx_cost_le RxState.receive (x ∷ xs) = omega arith
rx_cost_le RxState.drop (x ∷ xs) = omega arith

rx_emits :
    (s : RxState) (h : Bool) (xs : List PacketBeat) (c : Cycle PacketBeat)
    → let l = after rx_step (line_at s h xs) c in
      out rx_step (line_at s h xs) c ++ map kept (admitted l.regs l.left) ≡ map kept (admitted s xs)
unfolding rx_step
rx_emits RxState.idle h [] c = refl
rx_emits RxState.receive h [] c = refl
rx_emits RxState.drop h [] c = refl
rx_emits RxState.idle h (x ∷ xs) c = ground arith
rx_emits RxState.receive h (x ∷ xs) c = ground arith
rx_emits RxState.drop h (x ∷ xs) c = ground arith

rx_works :
    (s : RxState) (h : Bool) (xs : List PacketBeat) (c : Cycle PacketBeat)
    → let l = after rx_step (line_at s h xs) c in rx_cost l.regs l.left ≤ rx_cost s xs - willing c
unfolding rx_step
rx_works RxState.idle h [] c = ground arith
rx_works RxState.receive h [] c = ground arith
rx_works RxState.drop h [] c = ground arith
rx_works RxState.idle h (x ∷ xs) c = ground arith
rx_works RxState.receive h (x ∷ xs) c =
    ground (arith, rx_cost_le (if x.last then RxState.idle else RxState.receive) xs)
rx_works RxState.drop h (x ∷ xs) c =
    ground (arith, rx_cost_le (if x.last then RxState.idle else RxState.drop) xs)

rx_done : (s : RxState) (xs : List PacketBeat) → rx_cost s xs ≡ 0 → map kept (admitted s xs) ≡ []
rx_done s [] e = refl
rx_done RxState.idle (x ∷ xs) e = absurd (omega arith)
rx_done RxState.receive (x ∷ xs) e = absurd (omega arith)
rx_done RxState.drop (x ∷ xs) e = absurd (omega arith)

rx_contract : Contract rx_step
rx_contract = record {
  Inv = λ l. Unit {0};
  spec = λ l. map kept (admitted l.regs l.left);
  work = λ l. rx_cost l.regs l.left;
  keeps = λ l c i. tt;
  emits = λ l c i. rx_emits l.regs l.held l.left c;
  works = λ l c i. rx_works l.regs l.held l.left c;
  done = λ l i e. rx_done l.regs l.left e;
}

abbrev probe_cost : ProbeState → List PacketBeat → ℕ
probe_cost s [] = 0
probe_cost ProbeState.idle (x ∷ xs) = 2 * length (x ∷ xs)
probe_cost ProbeState.probe_response (x ∷ xs) = 2 * length (x ∷ xs) - 1

probe_cost_le : (s : ProbeState) (xs : List PacketBeat) → probe_cost s xs ≤ 2 * length xs
probe_cost_le s [] = omega arith
probe_cost_le ProbeState.idle (x ∷ xs) = omega arith
probe_cost_le ProbeState.probe_response (x ∷ xs) = omega arith

probe_emits :
    (s : ProbeState) (h : Bool) (xs : List PacketBeat) (c : Cycle PacketBeat)
    → let l = after probe_step (line_at s h xs) c in
      out probe_step (line_at s h xs) c ++ map probe_answer l.left ≡ map probe_answer xs
unfolding probe_step
probe_emits ProbeState.idle h [] c = refl
probe_emits ProbeState.probe_response h [] c = refl
probe_emits ProbeState.idle h (x ∷ xs) c = ground arith
probe_emits ProbeState.probe_response h (x ∷ xs) c = ground arith

probe_works :
    (s : ProbeState) (h : Bool) (xs : List PacketBeat) (c : Cycle PacketBeat)
    → let l = after probe_step (line_at s h xs) c in
      probe_cost l.regs l.left ≤ probe_cost s xs - willing c
unfolding probe_step
probe_works ProbeState.idle h [] c = ground arith
probe_works ProbeState.probe_response h [] c = ground arith
probe_works ProbeState.idle h (x ∷ xs) c = ground arith
probe_works ProbeState.probe_response h (x ∷ xs) c =
    ground (arith, probe_cost_le (if x.last then ProbeState.idle else ProbeState.probe_response) xs)

probe_done :
    (s : ProbeState) (xs : List PacketBeat) → probe_cost s xs ≡ 0 → map probe_answer xs ≡ []
probe_done s [] e = refl
probe_done ProbeState.idle (x ∷ xs) e = absurd (omega arith)
probe_done ProbeState.probe_response (x ∷ xs) e = absurd (omega arith)

probe_contract : Contract probe_step
probe_contract = record {
  Inv = λ l. Unit {0};
  spec = λ l. map probe_answer l.left;
  work = λ l. probe_cost l.regs l.left;
  keeps = λ l c i. tt;
  emits = λ l c i. probe_emits l.regs l.held l.left c;
  works = λ l c i. probe_works l.regs l.held l.left c;
  done = λ l i e. probe_done l.regs l.left e;
}

abbrev tx_cost : TxState → List PacketBeat → ℕ
tx_cost s [] = 0
tx_cost TxState.idle (x ∷ xs) = 2 * length (x ∷ xs)
tx_cost TxState.send (x ∷ xs) = 2 * length (x ∷ xs) - 1

tx_cost_le : (s : TxState) (xs : List PacketBeat) → tx_cost s xs ≤ 2 * length xs
tx_cost_le s [] = omega arith
tx_cost_le TxState.idle (x ∷ xs) = omega arith
tx_cost_le TxState.send (x ∷ xs) = omega arith

tx_emits :
    (s : TxState) (h : Bool) (xs : List PacketBeat) (c : Cycle PacketBeat)
    → let l = after tx_step (line_at s h xs) c in out tx_step (line_at s h xs) c ++ l.left ≡ xs
unfolding tx_step
tx_emits TxState.idle h [] c = refl
tx_emits TxState.send h [] c = refl
tx_emits TxState.idle h (x ∷ xs) c = ground arith
tx_emits TxState.send h (x ∷ xs) c = ground arith

tx_works :
    (s : TxState) (h : Bool) (xs : List PacketBeat) (c : Cycle PacketBeat)
    → let l = after tx_step (line_at s h xs) c in tx_cost l.regs l.left ≤ tx_cost s xs - willing c
unfolding tx_step
tx_works TxState.idle h [] c = ground arith
tx_works TxState.send h [] c = ground arith
tx_works TxState.idle h (x ∷ xs) c = ground arith
tx_works TxState.send h (x ∷ xs) c =
    ground (arith, tx_cost_le (if x.last then TxState.idle else TxState.send) xs)

tx_done : (s : TxState) (xs : List PacketBeat) → tx_cost s xs ≡ 0 → xs ≡ []
tx_done s [] e = refl
tx_done TxState.idle (x ∷ xs) e = absurd (omega arith)
tx_done TxState.send (x ∷ xs) e = absurd (omega arith)

tx_contract : Contract tx_step
tx_contract = record {
  Inv = λ l. Unit {0};
  spec = λ l. l.left;
  work = λ l. tx_cost l.regs l.left;
  keeps = λ l c i. tt;
  emits = λ l c i. tx_emits l.regs l.held l.left c;
  works = λ l c i. tx_works l.regs l.held l.left c;
  done = λ l i e. tx_done l.regs l.left e;
}

-- The answer to a probe as it goes out.
abbrev pub response : PacketBeat → PacketBeat
response x = record x {
  magic = 0x4e6f;
  version = 1;
  addr_size = 4;
  port_size = 4;
  pf = false;
  pr = true;
}

-- What a dispatcher gives its sink 0 of the packets at its source: those whose first beat selects
-- it. `first` says that a packet begins, `mine` where the one that goes on goes.
abbrev pub routed : (PacketBeat → ℕ) → Bool → Bool → List PacketBeat → List PacketBeat
routed selects first mine [] = []
routed selects first mine (x ∷ xs) =
    let here = if first then selects x == 0 else mine in
    (if here then x ∷ [] else []) ++ routed selects x.last here xs

-- The packets whose first beat has the flag of a probe.
abbrev pub flagged : Bool → Bool → List PacketBeat → List PacketBeat
flagged first mine [] = []
flagged first mine (x ∷ xs) =
    let here = if first then x.pf else mine in
    (if here then x ∷ [] else []) ++ flagged x.last here xs

abbrev pub probes : List PacketBeat → List PacketBeat
probes xs = flagged true false (admitted RxState.idle xs)

sel-pf : (x : PacketBeat) → (sel x == 0) ≡ x.pf
sel-pf x = of_flag x.pf
  where
    of_flag : (b : Bool) → ((if b then 0 else 1) == 0) ≡ b
    of_flag true = refl
    of_flag false = refl

routed-flagged :
    (first mine : Bool) (xs : List PacketBeat)
    → routed sel first mine (map kept xs) ≡ map kept (flagged first mine xs)
routed-flagged first mine [] = refl
routed-flagged first mine (x ∷ xs) =
    ap
      (λ b.
        let here = if first then b else mine in
        (if here then kept x ∷ [] else []) ++ routed sel x.last here (map kept xs))
      (sel-pf x)
    ∙ by_flag (if first then x.pf else mine) (flagged x.last (if first then x.pf else mine) xs)
        (routed-flagged x.last (if first then x.pf else mine) xs)
  where
    by_flag :
        (b : Bool) {ys : List PacketBeat} (zs : List PacketBeat)
        → ys ≡ map kept zs
        → (if b then kept x ∷ [] else []) ++ ys ≡ map kept ((if b then x ∷ [] else []) ++ zs)
    by_flag true zs e = ap (λ t. kept x ∷ t) e
    by_flag false zs e = e

-- The receiver, the dispatcher, the probe and the transmitter, each with what the one before it has
-- sent. The dispatcher is the library's.
abbrev pub probed :
    ((PacketBeat → ℕ) → List PacketBeat → List PacketBeat)
    → List (Cycle PacketBeat)
    → List (Cycle PacketBeat)
    → List (Cycle PacketBeat)
    → List PacketBeat
    → List PacketBeat
probed dispatched cs cs' cs'' xs =
    let received = run rx_step (line RxState.idle xs) cs in
    let answers = run probe_step (line ProbeState.idle (dispatched sel received)) cs' in
    run tx_step (line TxState.idle (map with_header answers)) cs''

-- Of packets, those whose first beat has the magic number and, of these, those whose first beat has
-- the flag of a probe come back through the dispatcher, the probe and the transmitter, each given
-- what the one before it has sent, with the answer's flags and the header's constants, and of the
-- others nothing, whatever the stalls, when there are two willing cycles for each beat, and the
-- dispatcher gives a packet to the sink that its first beat selects.
pub probed-response :
    (dispatched : (PacketBeat → ℕ) → List PacketBeat → List PacketBeat) (xs : List PacketBeat)
    (cs cs' cs'' : List (Cycle PacketBeat))
    → ((selects : PacketBeat → ℕ) (ys : List PacketBeat)
        → dispatched selects ys ≡ routed selects true false ys)
    → 2 * length xs ≤ willing_count cs
    → 2 * length (probes xs) ≤ willing_count cs'
    → 2 * length (probes xs) ≤ willing_count cs''
    → probed dispatched cs cs' cs'' xs ≡ map response (probes xs)
unfolding rx_contract probe_contract tx_contract
probed-response dispatched xs cs cs' cs'' routes enough enough' enough'' =
    let received : run rx_step (line RxState.idle xs) cs ≡ map kept (admitted RxState.idle xs) =
      run_complete rx_contract (line RxState.idle xs) cs tt
        (omega (arith, rx_cost_le RxState.idle xs, enough)) in
    let ys = map kept (probes xs) in
    let size : length ys ≡ length (probes xs) = length-map (probes xs) kept in
    let answers : run probe_step (line ProbeState.idle ys) cs' ≡ map probe_answer ys =
      run_complete probe_contract (line ProbeState.idle ys) cs' tt
        (omega (arith, probe_cost_le ProbeState.idle ys, enough', size)) in
    let zs = map response (probes xs) in
    let size' : length zs ≡ length (probes xs) = length-map (probes xs) response in
    ap
      (λ t.
        run tx_step
          (line TxState.idle (map with_header (run probe_step (line ProbeState.idle t) cs'))) cs'')
      (ap (dispatched sel) received
        ∙ routes sel (map kept (admitted RxState.idle xs))
        ∙ routed-flagged true false (admitted RxState.idle xs))
    ∙ ap (λ t. run tx_step (line TxState.idle (map with_header t)) cs'') answers
    ∙ ap (λ t. run tx_step (line TxState.idle t) cs'') (thrice (probes xs))
    ∙ run_complete tx_contract (line TxState.idle zs) cs'' tt
        (omega (arith, tx_cost_le TxState.idle zs, enough'', size'))
  where
    thrice :
        (ys : List PacketBeat) → map with_header (map probe_answer (map kept ys)) ≡ map response ys
    thrice [] = refl
    thrice (y ∷ ys) = ap (λ t. response y ∷ t) (thrice ys)
