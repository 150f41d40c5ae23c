-- ===== src/Frontend/Etherbone/Receiver/Mixed.antt =====
-- A record with both writes and reads at the receiver of liteeth/frontend/etherbone.py.
use native.Mathlib.Nat.{mod-eq_of_lt}
use liteeth.Prelude.{ℕ, suc, true, false, ◌+◌, ◌-◌, ◌*◌, ◌≤◌, ◌<◌, ◌≡◌, refl, ap, ◌∙◌, ◌==◌, not}
use liteeth.Prelude.{List, [], ◌∷◌, ◌++◌, arith, length}
use liteeth.Stream.{Cycle, willing_count, run}
use liteeth.Frontend.Etherbone.{RecordBeat, word_of}
use liteeth.Frontend.Etherbone.Receiver.{idle}
use liteeth.Frontend.Etherbone.Receiver.{receive_reads, count_on}
use liteeth.Frontend.Etherbone.Receiver.{receive_step}
use liteeth.Frontend.Etherbone.Receiver.Decode.{decoded, at, run-decoded}
use liteeth.Frontend.Etherbone.Receiver.Requests.{word_with, words_with, read_op}
use liteeth.Frontend.Etherbone.Receiver.Requests.{read_ops, write_ops, turned, enters}
use liteeth.Frontend.Etherbone.Receiver.Requests.{writes_decoded}

-- A record that writes and reads: the words, and the addresses, of which `final` is the last.
abbrev pub mixed : ℕ → ℕ → List ℕ → ℕ → List ℕ → ℕ → List RecordBeat
mixed be base ws ret addrs final =
    let n = length ws in
    let m = suc (length addrs) in
    word_with false n m be base
    ∷ (words_with n m be ws ++ (words_with n m be (ret ∷ (addrs ++ (final ∷ [])))))

reads_cut :
    (m n be ret k a : ℕ) (addrs : List ℕ) (final : ℕ)
    → k + suc (length addrs) ≡ n
    → n < 256
    → decoded receive_reads ret k (words_with m n be (a ∷ (addrs ++ (final ∷ []))))
      ≡ read_ops n ret (a ∷ addrs)
reads_cut m n be ret k a [] final e small =
    let last : (k == n - 1) ≡ true = ground arith in rw last refl
reads_cut m n be ret k a (v ∷ addrs) final e small =
    let not_last : (k == n - 1) ≡ false = ground arith in
    let next : count_on k ≡ k + 1 = mod-eq_of_lt (omega arith) in
    let rest = reads_cut m n be ret (k + 1) v addrs final (omega arith) small in
    rw not_last (rw next (ap (λ t. read_op false n ret (word_of a) ∷ t) rest))

-- Of a record that writes and then reads, both fewer than 256 words, the receiver makes the writes,
-- and then reads at the return address in place of the first address, at each address but the last
-- in place of the next one, and not at the last, whatever the stalls, when there are two willing
-- cycles for each beat.
pub run-mixed :
    (b n be base : ℕ) (w : ℕ) (ws : List ℕ) (ret : ℕ) (addrs : List ℕ) (final : ℕ)
    (cs : List (Cycle RecordBeat))
    → suc (length ws) < 256
    → suc (length addrs) < 256
    → 2 * length (mixed be base (w ∷ ws) ret addrs final) ≤ willing_count cs
    → run receive_step (at idle b n false (mixed be base (w ∷ ws) ret addrs final)) cs
      ≡ write_ops (suc (length ws)) be base 0 (w ∷ ws)
        ++ read_ops (suc (length addrs)) ret (ret ∷ addrs)
run-mixed b n be base w ws ret addrs final cs short short' enough =
    let nw = suc (length ws) in
    let nr = suc (length addrs) in
    let some : (nr == 0) ≡ false = ground arith in
    let tail = words_with nw nr be (ret ∷ (addrs ++ (final ∷ []))) in
    run-decoded b n (mixed be base (w ∷ ws) ret addrs final) cs enough
    ∙ ap (λ s. decoded s base 0 (words_with nw nr be (w ∷ ws) ++ tail))
        (enters (length ws) (word_with false nw nr be base) refl)
    ∙ writes_decoded nw nr be base 0 w ws tail (omega arith) short
    ∙ ap (λ t. write_ops nw be base 0 (w ∷ ws) ++ t)
        (ap (λ z. decoded (turned (not z)) 0 0 tail) some
          ∙ reads_cut nw nr be ret 0 ret addrs final (omega arith) short')
