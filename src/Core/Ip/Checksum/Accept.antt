-- ===== src/Core/Ip/Checksum/Accept.antt =====
-- The checksum units of the transmitter and of the receiver of liteeth/core/ip.py on one header.
use liteeth.Prelude.{
  ℕ, true, false, ◌+◌, ◌-◌, ◌%◌, ◌^◌, ◌≤◌, ◌<◌, ◌≡◌, ◌↔◌, arith, refl, ap, ◌∙◌, Bool,
}
use liteeth.Prelude.{List, [], ◌∷◌, length}
use liteeth.Core.Ip.Checksum.{
  Checksum, value, done, last_stage, n_cycles, ticks, swap16, summed_words,
}
use liteeth.Core.Ip.Checksum.Sum.{AllWords, sum, ones_sum, canonical, ones_sum-canonical}
use liteeth.Core.Ip.Checksum.Settle.{start, words, settled}

-- After `n_cycles` edges on a header that stays, from a cleared counter, the checksum unit is done
-- and its last register is the one's complement sum of all words that have a stage (their sum
-- modulo 65535, with 65535 for a multiple that is not 0), whatever the registers held before, for
-- words of 16 bits.
pub settled_sum :
    (skip : Bool) (header : List ℕ) (n : ℕ) (ss : List ℕ)
    → AllWords (words skip header)
    → length ss ≡ length (words skip header)
    → n ≡ n_cycles skip (length (words skip header))
    → let c = ticks skip n header (start ss) in
      (done skip c ≡ true) × (last_stage 0 c.stages ≡ canonical (sum (words skip header)))
settled_sum skip header n ss fit len e =
    let h = settled skip header n ss len e in
    let same : 0 + sum (words skip header) ≡ sum (words skip header) = omega arith in
    (h.0, h.1 ∙ ones_sum-canonical 0 (words skip header) fit ∙ ap canonical same)

-- The words of a header but the checksum's.
pub record Others : Type 0 where
  pub w0 : ℕ
  pub w1 : ℕ
  pub w2 : ℕ
  pub w3 : ℕ
  pub w4 : ℕ
  pub w6 : ℕ
  pub w7 : ℕ
  pub w8 : ℕ
  pub w9 : ℕ

abbrev pub others : Others → List ℕ
others h = h.w0 ∷ h.w1 ∷ h.w2 ∷ h.w3 ∷ h.w4 ∷ h.w6 ∷ h.w7 ∷ h.w8 ∷ h.w9 ∷ []

-- The header whose checksum field is the word `c`.
abbrev pub with_checksum : Others → ℕ → List ℕ
with_checksum h c = h.w0 ∷ h.w1 ∷ h.w2 ∷ h.w3 ∷ h.w4 ∷ c ∷ h.w6 ∷ h.w7 ∷ h.w8 ∷ h.w9 ∷ []

-- The checksum unit, some cycles after its counter was cleared on a header that stays.
abbrev pub tx_checksum : List ℕ → List ℕ → Checksum
tx_checksum ss header = ticks true 9 header (start ss)

abbrev pub rx_checksum : List ℕ → List ℕ → Checksum
rx_checksum ss header = ticks false 11 header (start ss)

ones_sum_zero : (ws : List ℕ) → AllWords ws → ones_sum 0 ws ≡ canonical (sum ws)
ones_sum_zero ws h = ones_sum-canonical 0 ws h ∙ ap canonical (omega arith)

tx_value :
    (h : Others) (c : ℕ) (ss : List ℕ)
    → AllWords (others h)
    → length ss ≡ 9
    → (done true (tx_checksum ss (with_checksum h c)) ≡ true)
      × (value (tx_checksum ss (with_checksum h c)) ≡ 65535 - swap16 (canonical (sum (others h))))
unfolding value summed_words
tx_value h c ss small len =
    let at_end = settled true (with_checksum h c) 9 ss len refl in
    (at_end.0, ap (λ r. 65535 - swap16 r) (at_end.1 ∙ ones_sum_zero (others h) small))

rx_value :
    (h : Others) (c : ℕ) (ss : List ℕ)
    → AllWords (others h)
    → c < 2 ^ 16
    → length ss ≡ 10
    → (done false (rx_checksum ss (with_checksum h c)) ≡ true)
      × (value (rx_checksum ss (with_checksum h c))
          ≡ 65535 - swap16 (canonical (sum (others h) + c)))
unfolding value summed_words
rx_value h c ss small fits len =
    let at_end = settled false (with_checksum h c) 11 ss len refl in
    let all : AllWords (with_checksum h c) = omega arith in
    let total : sum (with_checksum h c) ≡ sum (others h) + c = omega arith in
    (
      at_end.0,
      ap (λ r. 65535 - swap16 r)
          (at_end.1 ∙ ones_sum_zero (with_checksum h c) all ∙ ap canonical total),
    )

canonical-le : (n : ℕ) → canonical n ≤ 65535
canonical-le n = ground arith

swap16_complement : (r : ℕ) → r ≤ 65535 → swap16 (65535 - swap16 r) ≡ 65535 - r
swap16_complement r h = omega arith

canonical_complement : (n : ℕ) → canonical (n + (65535 - canonical n)) ≡ 65535
canonical_complement n = ground arith

complement_sum :
    (n v : ℕ) → v ≡ 65535 - swap16 (canonical n) → 65535 - swap16 (canonical (n + swap16 v)) ≡ 0
complement_sum n v e =
    rw (e, swap16_complement (canonical n) (canonical-le n), canonical_complement n)

swap16-top : (r : ℕ) → r ≤ 65535 → (65535 - swap16 r ≡ 0) ↔ (r ≡ 65535)
swap16-top r h = (λ e. omega arith, λ e. omega arith)

canonical-top : (n : ℕ) → (canonical n ≡ 65535) ↔ ((n % 65535 ≡ 0) × (0 < n))
canonical-top n = ground arith

complement-eq-zero_iff : (n : ℕ) → (65535 - swap16 (canonical n) ≡ 0) ↔ ((n % 65535 ≡ 0) × (0 < n))
complement-eq-zero_iff n =
    let top = swap16-top (canonical n) (canonical-le n) in
    (λ e. (canonical-top n).0 (top.0 e), λ e. top.1 ((canonical-top n).1 e))

-- With its checksum field filled from the transmitter's unit, any header of 16-bit words gives the
-- value 0 in the receiver's: both units are done after 9 and 11 cycles, whatever their registers
-- and the field held before.
pub rx-tx-checksum :
    (h : Others) (c : ℕ) (ss ts : List ℕ)
    → AllWords (others h)
    → length ss ≡ 9
    → length ts ≡ 10
    → let tx = tx_checksum ss (with_checksum h c) in
      let rx = rx_checksum ts (with_checksum h (swap16 (value tx))) in
      (done true tx ≡ true) × (done false rx ≡ true) × (value rx ≡ 0)
rx-tx-checksum h c ss ts small len len' =
    let tx = tx_value h c ss small len in
    let sent = swap16 (value (tx_checksum ss (with_checksum h c))) in
    let rx = rx_value h sent ts small (omega arith) len' in
    (
      tx.0,
      rx.0,
      rx.1 ∙ complement_sum (sum (others h)) (value (tx_checksum ss (with_checksum h c))) tx.1,
    )

-- The receiver's checksum unit gives the value 0 on a header of 16-bit words just when they add up
-- to a positive multiple of 65535, as RFC 1071 asks, whatever its registers held before.
pub rx_checksum_iff :
    (h : Others) (c : ℕ) (ts : List ℕ)
    → AllWords (others h)
    → c < 2 ^ 16
    → length ts ≡ 10
    → (value (rx_checksum ts (with_checksum h c)) ≡ 0)
      ↔ (((sum (others h) + c) % 65535 ≡ 0) × (0 < sum (others h) + c))
rx_checksum_iff h c ts small fits len =
    let rx = rx_value h c ts small fits len in rw rx.1 (complement-eq-zero_iff (sum (others h) + c))
