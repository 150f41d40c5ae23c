-- ===== src/Frontend/Etherbone/Replies.antt =====
-- What the Wishbone master and the sender of liteeth/frontend/etherbone.py make of requests.
use liteeth.Prelude.{ℕ, suc, Bool, true, false, ◌+◌, ◌*◌, ◌≡◌, refl, ap, sym, ◌∙◌}
use liteeth.Prelude.{List, [], ◌∷◌, ◌++◌, map, arith, length, length-map}
use liteeth.Frontend.Etherbone.{Mmap, RecordBeat, word_of}
use liteeth.Frontend.Etherbone.Receiver.Requests.{Request, writes, reads, word_with, words_with}
use liteeth.Frontend.Etherbone.Receiver.Requests.{beats, write_ops, read_ops, operations, no_more}
use liteeth.Frontend.Etherbone.Receiver.Requests.{all_operations, AllRequests, IsRequest}
use liteeth.Frontend.Etherbone.Master
use liteeth.Frontend.Etherbone.Master.{Bus, BusCycle, serve_step}
use liteeth.Frontend.Etherbone.Master.Answers.{answers, effect}
use liteeth.Frontend.Etherbone.Sender
use liteeth.Frontend.Etherbone.Sender.{record_length}
use liteeth.Frontend.Etherbone.Sender.{Inputs, sender_step}
use liteeth.Frontend.Etherbone.Sender.Answers.{sent, IsWhole}

module _ (bus : Bus) where
  open bus use {Memory, write, read}

  -- What a request does to the memory, and what it asks for. A read selects no byte of the bus: its
  -- byte enable is 0.
  abbrev pub write_all : ℕ → ℕ → ℕ → List ℕ → Memory → Memory
  write_all be base k [] mem = mem
  write_all be base k (w ∷ ws) mem =
      write_all be base (k + 1) ws (write (word_of base + k) w be mem)

  abbrev pub apply : Request → Memory → Memory
  apply (writes be base ws) mem = write_all be base 0 ws mem
  apply (reads be ret addrs) mem = mem

  abbrev pub read_all : List ℕ → Memory → List ℕ
  read_all addrs mem = map (λ a. read (word_of a) 0 mem) addrs

  -- The answer to a record of reads is a record of writes, with the words.
  abbrev pub response : Memory → Request → List RecordBeat
  response mem (writes be base ws) = []
  response mem (reads be ret addrs) = beats (writes 0 ret (read_all addrs mem))

  abbrev pub all_responses : Memory → List Request → List RecordBeat
  all_responses mem [] = []
  all_responses mem (r ∷ rs) = response mem r ++ all_responses (apply r mem) rs

  abbrev pub apply_all : List Request → Memory → Memory
  apply_all [] mem = mem
  apply_all (r ∷ rs) mem = apply_all rs (apply r mem)

  -- The master's answers between the two.
  abbrev pub answer_of : Bool → ℕ → ℕ → ℕ → ℕ → Mmap
  answer_of last n ret addr word = record {
    last = last;
    we = true;
    count = n;
    base_addr = ret;
    be = 0;
    addr = addr;
    data_word = word;
  }

  abbrev pub answers_of : ℕ → ℕ → List ℕ → Memory → List Mmap
  answers_of n ret [] mem = []
  answers_of n ret (a ∷ addrs) mem =
      answer_of (no_more addrs) n ret (word_of a) (read (word_of a) 0 mem)
      ∷ answers_of n ret addrs mem

  abbrev pub reply : Memory → Request → List Mmap
  reply mem (writes be base ws) = []
  reply mem (reads be ret addrs) = answers_of (length addrs) ret addrs mem

  abbrev pub all_replies : Memory → List Request → List Mmap
  all_replies mem [] = []
  all_replies mem (r ∷ rs) = reply mem r ++ all_replies (apply r mem) rs

  writes_done :
      (n be base k w : ℕ) (ws : List ℕ) (mem : Memory) (more : List Mmap)
      → (answers bus Master.write_data 0 mem (write_ops n be base k (w ∷ ws) ++ more)
          ≡ answers bus Master.idle 0 (write_all be base k (w ∷ ws) mem) more)
        × (effect bus Master.write_data mem (write_ops n be base k (w ∷ ws) ++ more)
            ≡ effect bus Master.idle (write_all be base k (w ∷ ws) mem) more)
  writes_done n be base k w [] mem more = (refl, refl)
  writes_done n be base k w (v ∷ ws) mem more =
      writes_done n be base (k + 1) v ws (write (word_of base + k) w be mem) more

  reads_done :
      (n ret a : ℕ) (addrs : List ℕ) (mem : Memory) (more : List Mmap)
      → (answers bus Master.read_data 0 mem (read_ops n ret (a ∷ addrs) ++ more)
          ≡ answers_of n ret (a ∷ addrs) mem ++ answers bus Master.idle 0 mem more)
        × (effect bus Master.read_data mem (read_ops n ret (a ∷ addrs) ++ more)
            ≡ effect bus Master.idle mem more)
  reads_done n ret a [] mem more = (refl, refl)
  reads_done n ret a (v ∷ addrs) mem more =
      let rest = reads_done n ret v addrs mem more in
      (ap (λ t. answer_of false n ret (word_of a) (read (word_of a) 0 mem) ∷ t) rest.0, rest.1)

  request_done :
      (r : Request) (mem : Memory) (more : List Mmap)
      → IsRequest r
      → (answers bus Master.idle 0 mem (operations r ++ more)
          ≡ reply mem r ++ answers bus Master.idle 0 (apply r mem) more)
        × (effect bus Master.idle mem (operations r ++ more)
            ≡ effect bus Master.idle (apply r mem) more)
  request_done (writes be base []) mem more h = absurd (omega (arith, h.0))
  request_done (writes be base (w ∷ ws)) mem more h =
      writes_done (suc (length ws)) be base 0 w ws mem more
  request_done (reads be ret []) mem more h = absurd (omega (arith, h.0))
  request_done (reads be ret (a ∷ addrs)) mem more h =
      reads_done (suc (length addrs)) ret a addrs mem more

  pub requests_done :
      (rs : List Request) (mem : Memory)
      → AllRequests rs
      → (answers bus Master.idle 0 mem (all_operations rs) ≡ all_replies mem rs)
        × (effect bus Master.idle mem (all_operations rs) ≡ apply_all rs mem)
  requests_done [] mem h = (refl, refl)
  requests_done (r ∷ rs) mem h =
      let one = request_done r mem (all_operations rs) h.0 in
      let rest = requests_done rs (apply r mem) h.1 in
      (one.0 ∙ ap (λ t. reply mem r ++ t) rest.0, one.1 ∙ rest.1)

  IsWhole-append : (xs ys : List Mmap) → IsWhole xs → IsWhole ys → IsWhole (xs ++ ys)
  IsWhole-append [] ys h k = k
  IsWhole-append (x ∷ []) [] h k = h
  IsWhole-append (x ∷ []) (y ∷ ys) h k = k
  IsWhole-append (x ∷ (z ∷ xs)) ys h k = IsWhole-append (z ∷ xs) ys h k

  answers-IsWhole :
      (n ret : ℕ) (addrs : List ℕ) (mem : Memory) → IsWhole (answers_of n ret addrs mem)
  answers-IsWhole n ret [] mem = tt
  answers-IsWhole n ret (a ∷ []) mem = refl
  answers-IsWhole n ret (a ∷ (v ∷ addrs)) mem = answers-IsWhole n ret (v ∷ addrs) mem

  pub replies-IsWhole : (rs : List Request) (mem : Memory) → IsWhole (all_replies mem rs)
  replies-IsWhole [] mem = tt
  replies-IsWhole (writes be base ws ∷ rs) mem = replies-IsWhole rs (write_all be base 0 ws mem)
  replies-IsWhole (reads be ret addrs ∷ rs) mem =
      IsWhole-append (answers_of (length addrs) ret addrs mem) (all_replies mem rs)
        (answers-IsWhole (length addrs) ret addrs mem) (replies-IsWhole rs mem)

  answers_sent :
      (n ret a : ℕ) (addrs : List ℕ) (mem : Memory) (more : List Mmap)
      → sent Sender.send_data (answers_of n ret (a ∷ addrs) mem ++ more)
        ≡ words_with n 0 0 (read_all (a ∷ addrs) mem) ++ sent Sender.idle more
  answers_sent n ret a [] mem more = refl
  answers_sent n ret a (v ∷ addrs) mem more =
      ap (λ t. word_with false n 0 0 (read (word_of a) 0 mem) ∷ t)
        (answers_sent n ret v addrs mem more)

  reply_sent :
      (r : Request) (mem : Memory) (more : List Mmap)
      → IsRequest r
      → sent Sender.idle (reply mem r ++ more) ≡ response mem r ++ sent Sender.idle more
  reply_sent (writes be base ws) mem more h = refl
  reply_sent (reads be ret []) mem more h = absurd (omega (arith, h.0))
  reply_sent (reads be ret (a ∷ addrs)) mem more h =
      let n = suc (length addrs) in
      let same : n ≡ length (read_all (a ∷ addrs) mem) =
        ap suc (sym (length-map addrs (λ v. read (word_of v) 0 mem))) in
      ap (λ t. word_with false n 0 0 ret ∷ t) (answers_sent n ret a addrs mem more)
      ∙ ap (λ m. words_with m 0 0 (ret ∷ read_all (a ∷ addrs) mem) ++ sent Sender.idle more) same

  pub replies_sent :
      (rs : List Request) (mem : Memory)
      → AllRequests rs
      → sent Sender.idle (all_replies mem rs) ≡ all_responses mem rs
  replies_sent [] mem h = refl
  replies_sent (r ∷ rs) mem h =
      reply_sent r mem (all_replies (apply r mem) rs) h.0
      ∙ ap (λ t. response mem r ++ t) (replies_sent rs (apply r mem) h.1)

-- The counts in a record's header, and its length: the header and its beats, of four bytes each.
abbrev counts : Request → ℕ × ℕ
counts (writes be base ws) = (length ws, 0)
counts (reads be ret addrs) = (0, length addrs)

length-words_with : (n m be : ℕ) (ws : List ℕ) → length (words_with n m be ws) ≡ length ws
length-words_with n m be [] = refl
length-words_with n m be (w ∷ ws) = ap suc (length-words_with n m be ws)

pub record_length-beats :
    (r : Request) → IsRequest r → record_length (counts r).0 (counts r).1 ≡ 4 + 4 * length (beats r)
record_length-beats (writes be base ws) h =
    ground (arith, length-words_with (length ws) 0 be ws, h.0)
record_length-beats (reads be ret addrs) h =
    ground (arith, length-words_with 0 (length addrs) be addrs, h.0)
