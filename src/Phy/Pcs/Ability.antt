-- ===== src/Phy/Pcs/Ability.antt =====
-- liteeth/phy/pcs_1000basex.py: what `PCS` makes of the configuration words that its receiver
-- reports: the ability and acknowledgement matches.
use mathlib.Core.Path.{subst}
use Prim.Native.Nat.{bit_or}
use liteeth.Prelude.{
  ℕ, zero, suc, Bool, true, false, ◌-◌, ◌/◌, ◌%◌, ◌≡◌, refl, ap, ap₂, sym, ◌∙◌, ◌&&◌, not,
}
use liteeth.Prelude.{◌==◌, if◌then◌else◌, List, [], ◌∷◌, ◌++◌, replicate, arith}
use liteeth.Machine.{ticks, ticks-append}

-- `abi` and `ack` are the inputs of the two pulse synchronizers.
pub record Ability : Type 0 where
  pub c_counter : ℕ
  pub previous_config_reg : ℕ
  pub preack_config_reg : ℕ
  pub abi : Bool
  pub ack : Bool
  pub link_partner_adv_ability : ℕ

-- The receiver's `seen_config_reg` and `config_reg`.
pub record Report : Type 0 where
  pub seen : Bool
  pub config_reg : ℕ

-- The same words but for the bit of acknowledgement.
abbrev pub same : ℕ → ℕ → Bool
same a b = bit_or a 16384 == bit_or b 16384

abbrev pub is_acked : ℕ → Bool
is_acked reg = reg / 16384 % 2 == 1

abbrev pub is_empty : ℕ → Bool
is_empty reg = bit_or reg 1 == 1

abbrev pub ability_match : Ability → Report → Bool
ability_match a r =
    r.seen
    && (a.c_counter == 1
        && (same a.previous_config_reg r.config_reg && not (is_empty r.config_reg)))

unfoldable pub ability_next : Ability → Report → Ability
ability_next a r = record {
  c_counter = if r.seen then 4 else if not (a.c_counter == 0) then a.c_counter - 1 else a.c_counter;
  previous_config_reg = if r.seen then r.config_reg else a.previous_config_reg;
  preack_config_reg = if ability_match a r then a.previous_config_reg else a.preack_config_reg;
  abi = ability_match a r;
  ack =
      ability_match a r
      && (is_acked a.previous_config_reg
          && is_acked r.config_reg
          && same a.preack_config_reg r.config_reg);
  link_partner_adv_ability = if r.seen then r.config_reg else a.link_partner_adv_ability;
}

abbrev pub ability_step : Ability → Report → Ability × List Bool
ability_step a r = (ability_next a r, [])

abbrev pub report : ℕ → Report
report reg = record { seen = true; config_reg = reg }

abbrev pub no_report : ℕ → Report
no_report reg = record { seen = false; config_reg = reg }

-- `k` cycles without a word, whatever stands in `config_reg`.
abbrev pub pause : ℕ → ℕ → List Report
pause k x = replicate k (no_report x)

pause_keeps :
    (k x : ℕ) (a : Ability)
    → let a' = ticks ability_step a (pause k x) in
      (a'.c_counter ≡ a.c_counter - k)
      × (a'.previous_config_reg ≡ a.previous_config_reg)
      × (a'.preack_config_reg ≡ a.preack_config_reg)
unfolding ability_next ticks
pause_keeps zero x a = (omega arith, refl, refl)
pause_keeps (suc k) x a =
    let rest = pause_keeps k x (ability_next a (no_report x)) in
    (ground (arith, rest.0), rest.1, rest.2)

-- A word, a pause, and a second word.
abbrev pub two_words : ℕ → ℕ → ℕ → ℕ → List Report
two_words w k x w' = report w ∷ (pause k x ++ (report w' ∷ []))

-- What makes two words match: they are not empty, they stand four cycles apart, and they agree.
abbrev pub matching : ℕ → ℕ → ℕ → Bool
matching w k w' = k == 3 && (same w w' && not (is_empty w'))

abbrev pub acknowledging : ℕ → ℕ → ℕ → ℕ → Bool
acknowledging preack w k w' = matching w k w' && (is_acked w && is_acked w' && same preack w')

-- What the second word finds, and what comes of it.
abbrev Outcome : ℕ → ℕ → ℕ → ℕ → Ability → Type 0
Outcome preack w k w' a' =
    (a'.abi ≡ matching w k w')
    × (a'.ack ≡ acknowledging preack w k w')
    × (a'.preack_config_reg ≡ (if matching w k w' then w else preack))
    × (a'.link_partner_adv_ability ≡ w')

three_quiet : (k : ℕ) → (4 - k == 1) ≡ (k == 3)
three_quiet k = ground arith

second_word :
    (b : Ability) (w k w' preack : ℕ)
    → b.c_counter ≡ 4 - k
    → b.previous_config_reg ≡ w
    → b.preack_config_reg ≡ preack
    → Outcome preack w k w' (ability_next b (report w'))
unfolding ability_next
second_word b w k w' preack c p q =
    let abi : ability_match b (report w') ≡ matching w k w' =
      ap₂ (λ n u. n == 1 && (same u w' && not (is_empty w'))) c p
      ∙ ap (λ t. t && (same w w' && not (is_empty w'))) (three_quiet k) in
    (
      abi,
      ap₂ (λ m u. m && (is_acked u && is_acked w' && same b.preack_config_reg w')) abi p
          ∙ ap (λ v. matching w k w' && (is_acked w && is_acked w' && same v w')) q,
      ap₂ (λ m u. if m then u else b.preack_config_reg) abi p
          ∙ ap (λ v. if matching w k w' then w else v) q,
      refl,
    )

counts : (a : Ability) (w k : ℕ) → (ability_next a (report w)).c_counter - k ≡ 4 - k
unfolding ability_next
counts a w k = refl

notes : (a : Ability) (w : ℕ) → (ability_next a (report w)).previous_config_reg ≡ w
unfolding ability_next
notes a w = refl

-- In any state, when two configuration words come with `k` cycles between them, there is an ability
-- match just when `k` is 3, the second is not empty and they agree up to the bit of
-- acknowledgement; an acknowledgement just when also both have that bit and the second agrees with
-- the word kept from the match before; then the first word is kept, and the second is the partner's
-- ability.
pub ability_step-two_words :
    (a : Ability) (w k x w' : ℕ)
    → let a' = ticks ability_step a (two_words w k x w') in
      let preack = (ability_next a (report w)).preack_config_reg in
      (a'.abi ≡ matching w k w')
      × (a'.ack ≡ acknowledging preack w k w')
      × (a'.preack_config_reg ≡ (if matching w k w' then w else preack))
      × (a'.link_partner_adv_ability ≡ w')
unfolding ticks
ability_step-two_words a w k x w' =
    let a1 = ability_next a (report w) in
    let kept = pause_keeps k x a1 in
    let b = ticks ability_step a1 (pause k x) in
    let preack = a1.preack_config_reg in
    subst (λ s. Outcome preack w k w' s)
      (sym (ticks-append ability_step a1 (pause k x) (report w' ∷ [])))
      (second_word b w k w' preack (kept.0 ∙ counts a w k) (kept.1 ∙ notes a w) kept.2)
