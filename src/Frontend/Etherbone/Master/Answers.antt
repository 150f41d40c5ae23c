-- ===== src/Frontend/Etherbone/Master/Answers.antt =====
-- What the master of liteeth/frontend/etherbone.py answers, and what it does to the memory.
use liteeth.Prelude.{ℕ, Bool, true, false, ◌≡◌, refl}
use liteeth.Prelude.{if◌then◌else◌, List, [], ◌∷◌}
use liteeth.Frontend.Etherbone.{Mmap}
use liteeth.Frontend.Etherbone.Master.{State, idle, write_data, read_data, send_data}
use liteeth.Frontend.Etherbone.Master.{Bus}

module _ (bus : Bus) where
  open bus use {Memory, write, read}

  -- The answer to a read is a write of the word to the address that the request gave.
  abbrev pub answer : Mmap → ℕ → Mmap
  answer x word = record {
    last = x.last;
    we = true;
    count = x.count;
    base_addr = x.base_addr;
    be = x.be;
    addr = x.addr;
    data_word = word;
  }

  abbrev pub after_write : Mmap → State
  after_write x = if x.last then idle else write_data

  abbrev pub after_read : Mmap → State
  after_read x = if x.last then idle else read_data

  abbrev pub written : Mmap → Memory → Memory
  written x mem = write x.addr x.data_word x.be mem

  -- The answers from a state on, and the memory in the end.
  abbrev pub answers : State → ℕ → Memory → List Mmap → List Mmap
  answers s word mem [] = []
  answers idle word mem (x ∷ xs) =
      if x.we
      then answers (after_write x) 0 (written x mem) xs
      else answer x (read x.addr x.be mem) ∷ answers (after_read x) 0 mem xs
  answers write_data word mem (x ∷ xs) = answers (after_write x) 0 (written x mem) xs
  answers read_data word mem (x ∷ xs) =
      answer x (read x.addr x.be mem) ∷ answers (after_read x) 0 mem xs
  answers send_data word mem (x ∷ xs) = answer x word ∷ answers (after_read x) 0 mem xs

  -- The word counts in SEND_DATA only.
  pub write_forgets :
      (x : Mmap) (w : ℕ) (mem : Memory) (xs : List Mmap)
      → answers (after_write x) w mem xs ≡ answers (after_write x) 0 mem xs
  write_forgets x w mem xs = forgets x.last xs
    where
      forgets :
          (b : Bool) (xs : List Mmap)
          → answers (if b then idle else write_data) w mem xs
            ≡ answers (if b then idle else write_data) 0 mem xs
      forgets b [] = refl
      forgets true (x ∷ xs) = refl
      forgets false (x ∷ xs) = refl

  pub read_forgets :
      (x : Mmap) (w : ℕ) (mem : Memory) (xs : List Mmap)
      → answers (after_read x) w mem xs ≡ answers (after_read x) 0 mem xs
  read_forgets x w mem xs = forgets x.last xs
    where
      forgets :
          (b : Bool) (xs : List Mmap)
          → answers (if b then idle else read_data) w mem xs
            ≡ answers (if b then idle else read_data) 0 mem xs
      forgets b [] = refl
      forgets true (x ∷ xs) = refl
      forgets false (x ∷ xs) = refl

  abbrev pub effect : State → Memory → List Mmap → Memory
  effect s mem [] = mem
  effect idle mem (x ∷ xs) =
      if x.we then effect (after_write x) (written x mem) xs else effect (after_read x) mem xs
  effect write_data mem (x ∷ xs) = effect (after_write x) (written x mem) xs
  effect read_data mem (x ∷ xs) = effect (after_read x) mem xs
  effect send_data mem (x ∷ xs) = effect (after_read x) mem xs

  pub idle_forgets :
      (w : ℕ) (mem : Memory) (xs : List Mmap) → answers idle w mem xs ≡ answers idle 0 mem xs
  idle_forgets w mem [] = refl
  idle_forgets w mem (x ∷ xs) = refl
