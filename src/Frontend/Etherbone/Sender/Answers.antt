-- ===== src/Frontend/Etherbone/Sender/Answers.antt =====
-- The records that the sender of liteeth/frontend/etherbone.py makes of Wishbone operations.
use liteeth.Prelude.{ℕ, Bool, true, false, ◌-◌, ◌*◌, ◌≤◌, ◌≡◌, refl, ◌&&◌}
use liteeth.Prelude.{if◌then◌else◌, List, [], ◌∷◌, ◌++◌, arith, length}
use liteeth.Machine.{outs}
use liteeth.Machine.Promise.{Promise, helps, outs_complete}
use liteeth.Frontend.Etherbone.{Mmap, RecordBeat}
use liteeth.Frontend.Etherbone.Sender.{State, idle, send_base_address, send_data, record_beat}
use liteeth.Frontend.Etherbone.Sender.{send_fsm, Sender, Inputs, sender_step}

-- Before the beats of a packet goes its base address.
abbrev pub sent : State → List Mmap → List RecordBeat
sent s [] = []
sent idle (x ∷ xs) =
    record_beat false x.base_addr x
    ∷ (record_beat x.last x.data_word x ∷ sent (if x.last then idle else send_data) xs)
sent send_base_address (x ∷ xs) =
    record_beat false x.base_addr x
    ∷ (record_beat x.last x.data_word x ∷ sent (if x.last then idle else send_data) xs)
sent send_data (x ∷ xs) =
    record_beat x.last x.data_word x ∷ sent (if x.last then idle else send_data) xs

-- The FIFO ends with the end of a packet.
abbrev pub IsWhole : List Mmap → Type 0
IsWhole [] = Unit
IsWhole (x ∷ []) = x.last ≡ true
IsWhole (x ∷ (y ∷ ys)) = IsWhole (y ∷ ys)

abbrev SendInv : State → List Mmap → Type 0
SendInv idle xs = IsWhole xs
SendInv send_base_address [] = ⊥
SendInv send_base_address (x ∷ xs) = IsWhole (x ∷ xs)
SendInv send_data [] = ⊥
SendInv send_data (x ∷ xs) = IsWhole (x ∷ xs)

abbrev cost_at : State → List Mmap → ℕ
cost_at s [] = 0
cost_at idle (x ∷ xs) = 3 * length (x ∷ xs)
cost_at send_base_address (x ∷ xs) = 3 * length (x ∷ xs) - 1
cost_at send_data (x ∷ xs) = 3 * length (x ∷ xs) - 2

abbrev pub sender_at : State → List Mmap → Sender
sender_at s xs = record { fsm = s; fifo = xs }

waits_or_sends :
    (ready : Bool) (x : Mmap) (xs : List Mmap)
    → IsWhole (x ∷ xs)
    → SendInv (if ready then send_data else send_base_address) (x ∷ xs)
waits_or_sends true x xs h = h
waits_or_sends false x xs h = h

goes_on :
    (ready last : Bool) (x y : Mmap) (ys : List Mmap)
    → IsWhole (y ∷ ys)
    → SendInv (if ready && last then idle else send_data) (if ready then y ∷ ys else x ∷ (y ∷ ys))
goes_on true true x y ys h = h
goes_on true false x y ys h = h
goes_on false last x y ys h = h

ends :
    (ready : Bool) (x : Mmap)
    → x.last ≡ true
    → SendInv (if ready && x.last then idle else send_data) (if ready then [] else x ∷ [])
ends true x h = simp h tt
ends false x h = h

keeps_at :
    (s : State) (xs : List Mmap) (i : Inputs)
    → SendInv s xs
    → let s' = (sender_step (sender_at s xs) i).0 in SendInv s'.fsm s'.fifo
unfolding send_fsm
keeps_at idle [] i h = tt
keeps_at idle (x ∷ xs) i h = h
keeps_at send_base_address [] i h = absurd h
keeps_at send_base_address (x ∷ xs) i h = waits_or_sends i.ready x xs h
keeps_at send_data [] i h = absurd h
keeps_at send_data (x ∷ []) i h = ends i.ready x h
keeps_at send_data (x ∷ (y ∷ ys)) i h = goes_on i.ready x.last x y ys h

emits_at :
    (s : State) (xs : List Mmap) (i : Inputs)
    → SendInv s xs
    → let (s', os) = sender_step (sender_at s xs) i in os ++ sent s'.fsm s'.fifo ≡ sent s xs
unfolding send_fsm
emits_at idle [] i h = refl
emits_at idle (x ∷ xs) i h = refl
emits_at send_base_address [] i h = absurd h
emits_at send_base_address (x ∷ xs) i h = ground arith
emits_at send_data [] i h = absurd h
emits_at send_data (x ∷ xs) i h = ground arith

cost_le : (s : State) (xs : List Mmap) → cost_at s xs ≤ 3 * length xs
cost_le s [] = omega arith
cost_le idle (x ∷ xs) = omega arith
cost_le send_base_address (x ∷ xs) = omega arith
cost_le send_data (x ∷ xs) = omega arith

works_at :
    (s : State) (xs : List Mmap) (i : Inputs)
    → SendInv s xs
    → let s' = (sender_step (sender_at s xs) i).0 in
      cost_at s'.fsm s'.fifo ≤ cost_at s xs - (if i.ready then 1 else 0)
unfolding send_fsm
works_at idle [] i h = ground arith
works_at idle (x ∷ xs) i h = ground arith
works_at send_base_address [] i h = absurd h
works_at send_base_address (x ∷ xs) i h = ground arith
works_at send_data [] i h = absurd h
works_at send_data (x ∷ xs) i h = ground (arith, cost_le (if x.last then idle else send_data) xs)

done_at : (s : State) (xs : List Mmap) → cost_at s xs ≡ 0 → sent s xs ≡ []
done_at s [] e = refl
done_at idle (x ∷ xs) e = absurd (omega arith)
done_at send_base_address (x ∷ xs) e = absurd (omega arith)
done_at send_data (x ∷ xs) e = absurd (omega arith)

abbrev pub helpful : Inputs → ℕ
helpful i = if i.ready then 1 else 0

send_promise : Promise sender_step helpful
send_promise = record {
  Inv = λ s. SendInv s.fsm s.fifo;
  spec = λ s. sent s.fsm s.fifo;
  work = λ s. cost_at s.fsm s.fifo;
  keeps = λ s i h. keeps_at s.fsm s.fifo i h;
  emits = λ s i h. emits_at s.fsm s.fifo i h;
  works = λ s i h. works_at s.fsm s.fifo i h;
  done = λ s h e. done_at s.fsm s.fifo e;
}

-- From IDLE
pub sender_step-sent :
    (xs : List Mmap) (is : List Inputs)
    → IsWhole xs
    → 3 * length xs ≤ helps helpful is
    → outs sender_step (sender_at idle xs) is ≡ sent idle xs
unfolding send_promise
sender_step-sent xs is whole enough =
    (outs_complete send_promise (sender_at idle xs) is whole
      (omega (arith, cost_le idle xs, enough))).0
