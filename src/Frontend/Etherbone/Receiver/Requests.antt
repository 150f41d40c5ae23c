-- ===== src/Frontend/Etherbone/Receiver/Requests.antt =====
-- Records of writes and records of reads at the receiver of liteeth/frontend/etherbone.py.
use native.Mathlib.Nat.{mod-eq_of_lt}
use liteeth.Prelude.{
  ℕ, suc, Bool, true, false, ◌+◌, ◌-◌, ◌*◌, ◌≤◌, ◌<◌, ◌≡◌, refl, ap, ◌∙◌, ◌==◌, not,
}
use liteeth.Prelude.{if◌then◌else◌, List, [], ◌∷◌, ◌++◌, arith, length}
use liteeth.Stream.{Cycle, willing_count, run}
use liteeth.Frontend.Etherbone.{RecordBeat, Mmap, word_of}
use liteeth.Frontend.Etherbone.Receiver.{State, idle, receive_writes, receive_base_ret_addr}
use liteeth.Frontend.Etherbone.Receiver.{receive_reads, count_on}
use liteeth.Frontend.Etherbone.Receiver.{receive_step, entered}
use liteeth.Frontend.Etherbone.Receiver.Decode.{decoded, at, run-decoded}

-- A record that only writes, from a base address on, or one that only reads, for an answer to an
-- address.
pub data Request : Type 0 where
  writes : (byte_enable base_addr : ℕ) (words : List ℕ) → Request
  reads : (byte_enable base_ret_addr : ℕ) (addrs : List ℕ) → Request

abbrev pub no_more : List ℕ → Bool
no_more [] = true
no_more (w ∷ ws) = false

abbrev pub word_with : Bool → ℕ → ℕ → ℕ → ℕ → RecordBeat
word_with last wcount rcount be w = record {
  last = last;
  data_word = w;
  wcount = wcount;
  rcount = rcount;
  byte_enable = be;
}

-- The words `ws` of a record with these counts.
abbrev pub words_with : ℕ → ℕ → ℕ → List ℕ → List RecordBeat
words_with wcount rcount be [] = []
words_with wcount rcount be (w ∷ ws) =
    word_with (no_more ws) wcount rcount be w ∷ words_with wcount rcount be ws

abbrev pub beats : Request → List RecordBeat
beats (writes be base ws) = words_with (length ws) 0 be (base ∷ ws)
beats (reads be ret addrs) = words_with 0 (length addrs) be (ret ∷ addrs)

-- The operations on the bus: `n` in all, from the `k`-th on.
abbrev pub write_op : Bool → ℕ → ℕ → ℕ → ℕ → Mmap
write_op last n be addr w = record {
  last = last;
  we = true;
  count = n;
  base_addr = 0;
  be = be;
  addr = addr;
  data_word = w;
}

abbrev pub read_op : Bool → ℕ → ℕ → ℕ → Mmap
read_op last n ret addr = record {
  last = last;
  we = false;
  count = n;
  base_addr = ret;
  be = 0;
  addr = addr;
  data_word = 0;
}

abbrev pub write_ops : ℕ → ℕ → ℕ → ℕ → List ℕ → List Mmap
write_ops n be base k [] = []
write_ops n be base k (w ∷ ws) =
    write_op (no_more ws) n be (word_of base + k) w ∷ write_ops n be base (k + 1) ws

abbrev pub read_ops : ℕ → ℕ → List ℕ → List Mmap
read_ops n ret [] = []
read_ops n ret (a ∷ addrs) = read_op (no_more addrs) n ret (word_of a) ∷ read_ops n ret addrs

abbrev pub operations : Request → List Mmap
operations (writes be base ws) = write_ops (length ws) be base 0 ws
operations (reads be ret addrs) = read_ops (length addrs) ret addrs

-- The counts of the header have 8 bits, and a record does something.
abbrev pub IsRequest : Request → Type 0
IsRequest (writes be base ws) = (0 < length ws) × (length ws < 256)
IsRequest (reads be ret addrs) = (0 < length addrs) × (length addrs < 256)

idle_forgets : (b n b' n' : ℕ) (xs : List RecordBeat) → decoded idle b n xs ≡ decoded idle b' n' xs
idle_forgets b n b' n' [] = refl
idle_forgets b n b' n' (x ∷ xs) = refl

-- Where a record goes after its writes.
abbrev pub turned : Bool → State
turned more_reads = if more_reads then receive_base_ret_addr else idle

turned_forgets :
    (t : Bool) (b n b' n' : ℕ) (xs : List RecordBeat)
    → decoded (turned t) b n xs ≡ decoded (turned t) b' n' xs
turned_forgets true b n b' n' [] = refl
turned_forgets true b n b' n' (x ∷ xs) = refl
turned_forgets false b n b' n' xs = idle_forgets b n b' n' xs

pub writes_decoded :
    (n r be base k w : ℕ) (ws : List ℕ) (more : List RecordBeat)
    → k + suc (length ws) ≡ n
    → n < 256
    → decoded receive_writes base k (words_with n r be (w ∷ ws) ++ more)
      ≡ write_ops n be base k (w ∷ ws) ++ decoded (turned (not (r == 0))) 0 0 more
writes_decoded n r be base k w [] more e small =
    let last : (k == n - 1) ≡ true = ground arith in
    rw last (
      ap (λ t. write_op true n be (word_of base + k) w ∷ t)
        (turned_forgets (not (r == 0)) base (count_on k) 0 0 more))
writes_decoded n r be base k w (v ∷ ws) more e small =
    let not_last : (k == n - 1) ≡ false = ground arith in
    let next : count_on k ≡ k + 1 = mod-eq_of_lt (omega arith) in
    let rest = writes_decoded n r be base (k + 1) v ws more (omega arith) small in
    rw not_last (rw next (ap (λ t. write_op false n be (word_of base + k) w ∷ t) rest))

pub reads_decoded :
    (m n be ret k a : ℕ) (addrs : List ℕ) (more : List RecordBeat)
    → k + suc (length addrs) ≡ n
    → n < 256
    → decoded receive_reads ret k (words_with m n be (a ∷ addrs) ++ more)
      ≡ read_ops n ret (a ∷ addrs) ++ decoded idle 0 0 more
reads_decoded m n be ret k a [] more e small =
    let last : (k == n - 1) ≡ true = ground arith in
    rw last (ap (λ t. read_op true n ret (word_of a) ∷ t) (idle_forgets ret (count_on k) 0 0 more))
reads_decoded m n be ret k a (v ∷ addrs) more e small =
    let not_last : (k == n - 1) ≡ false = ground arith in
    let next : count_on k ≡ k + 1 = mod-eq_of_lt (omega arith) in
    let rest = reads_decoded m n be ret (k + 1) v addrs more (omega arith) small in
    rw not_last (rw next (ap (λ t. read_op false n ret (word_of a) ∷ t) rest))

pub enters : (n : ℕ) (x : RecordBeat) → x.wcount ≡ suc n → entered x ≡ receive_writes
enters n x e = ground arith

enters_reads :
    (n : ℕ) (x : RecordBeat) → x.wcount ≡ 0 → x.rcount ≡ suc n → entered x ≡ receive_reads
enters_reads n x e e' = ground arith

request_decoded :
    (r : Request) (more : List RecordBeat)
    → IsRequest r
    → decoded idle 0 0 (beats r ++ more) ≡ operations r ++ decoded idle 0 0 more
request_decoded (writes be base []) more h = absurd (omega (arith, h.0))
request_decoded (writes be base (w ∷ ws)) more h =
    let n = suc (length ws) in
    ap (λ s. decoded s base 0 (words_with n 0 be (w ∷ ws) ++ more))
      (enters (length ws) (word_with false n 0 be base) refl)
    ∙ writes_decoded n 0 be base 0 w ws more (omega arith) h.1
request_decoded (reads be ret []) more h = absurd (omega (arith, h.0))
request_decoded (reads be ret (a ∷ addrs)) more h =
    let n = suc (length addrs) in
    ap (λ s. decoded s ret 0 (words_with 0 n be (a ∷ addrs) ++ more))
      (enters_reads (length addrs) (word_with false 0 n be ret) refl refl)
    ∙ reads_decoded 0 n be ret 0 a addrs more (omega arith) h.1

abbrev pub all_beats : List Request → List RecordBeat
all_beats [] = []
all_beats (r ∷ rs) = beats r ++ all_beats rs

abbrev pub all_operations : List Request → List Mmap
all_operations [] = []
all_operations (r ∷ rs) = operations r ++ all_operations rs

abbrev pub AllRequests : List Request → Type 0
AllRequests [] = Unit
AllRequests (r ∷ rs) = IsRequest r × AllRequests rs

requests_decoded :
    (rs : List Request) → AllRequests rs → decoded idle 0 0 (all_beats rs) ≡ all_operations rs
requests_decoded [] h = refl
requests_decoded (r ∷ rs) h =
    request_decoded r (all_beats rs) h.0 ∙ ap (λ t. operations r ++ t) (requests_decoded rs h.1)

-- From IDLE
pub run-receive_step :
    (b n : ℕ) (rs : List Request) (cs : List (Cycle RecordBeat))
    → AllRequests rs
    → 2 * length (all_beats rs) ≤ willing_count cs
    → run receive_step (at idle b n false (all_beats rs)) cs ≡ all_operations rs
run-receive_step b n rs cs h enough =
    run-decoded b n (all_beats rs) cs enough
    ∙ idle_forgets b n 0 0 (all_beats rs)
    ∙ requests_decoded rs h
