-- ===== src/Mac/Crc/Engine/Optimize.antt =====
-- `_optimize_eq` of liteeth/mac/crc.py, and the value of an equation.
use liteeth.Prelude.{ℕ, Bool, true, false, ◌+◌, ◌%◌, ◌≡◌, refl, sym, ◌∙◌, ◌==◌, arith}
use liteeth.Prelude.{List, [], ◌∷◌, ◌++◌, if◌then◌else◌, xor, ==_iff, Bool-cases, inl, inr}
use liteeth.Mac.Crc.Engine.{Term, state, din, term_eq, bump, tally, odd_keys, optimize_eq}

pub xor_comm : (a b : Bool) → xor a b ≡ xor b a
unfolding xor
xor_comm a b = ground arith

pub xor_assoc : (a b c : Bool) → xor (xor a b) c ≡ xor a (xor b c)
unfolding xor
xor_assoc a b c = ground arith

pub xor_left_comm : (a b c : Bool) → xor a (xor b c) ≡ xor b (xor a c)
unfolding xor
xor_left_comm a b c = ground arith

pub xor_swap : (a b c : Bool) → xor (xor a b) c ≡ xor b (xor a c)
unfolding xor
xor_swap a b c = ground arith

pub xor_medial : (a b c d : Bool) → xor (xor a b) (xor c d) ≡ xor (xor a c) (xor b d)
unfolding xor
xor_medial a b c d = ground arith

pub xor_self : (a : Bool) → xor a a ≡ false
unfolding xor
xor_self a = ground arith

pub false-xor : (a : Bool) → xor false a ≡ a
unfolding xor
false-xor a = ground arith

pub xor-false : (a : Bool) → xor a false ≡ a
unfolding xor
xor-false a = ground arith

module _ (value : Term → Bool) where
  abbrev pub total : List Term → Bool
  total [] = false
  total (e ∷ l) = xor (value e) (total l)

  -- A key counts as often as it was met.
  abbrev weighed : List (Term × ℕ) → Bool
  weighed [] = false
  weighed ((k, n) ∷ d) = xor (if n % 2 == 0 then false else value k) (weighed d)

  term_eq-value : (e k : Term) → term_eq e k ≡ true → value e ≡ value k
  term_eq-value (state i) (state j) h = ground (arith, ==_iff i j)
  term_eq-value (state i) (din j) h = cc
  term_eq-value (din i) (state j) h = cc
  term_eq-value (din i) (din j) h = ground (arith, ==_iff i j)

  parity_step :
      (n : ℕ) (b : Bool)
      → (if (n + 1) % 2 == 0 then false else b) ≡ xor b (if n % 2 == 0 then false else b)
  unfolding xor
  parity_step n b = ground arith

  weighed-bump : (e : Term) (d : List (Term × ℕ)) → weighed (bump e d) ≡ xor (value e) (weighed d)
  unfolding bump
  weighed-bump e [] = refl
  weighed-bump e ((k, n) ∷ d) = elim (Bool-cases (term_eq e k)) [
    | inl h ↦ rw (h, parity_step n (value k), term_eq-value e k h, xor_assoc)
    | inr h ↦ rw (h, weighed-bump e d) (xor_left_comm _ _ _)
  ]

  weighed-tally :
      (d : List (Term × ℕ)) (l : List Term) → weighed (tally d l) ≡ xor (weighed d) (total l)
  unfolding tally
  weighed-tally d [] = sym (xor-false _)
  weighed-tally d (e ∷ l) = rw (weighed-tally (bump e d) l, weighed-bump e d) (xor_swap _ _ _)

  total-odd_keys : (d : List (Term × ℕ)) → total (odd_keys d) ≡ weighed d
  unfolding odd_keys
  total-odd_keys [] = refl
  total-odd_keys ((k, n) ∷ d) = ground (arith, total-odd_keys d, false-xor (weighed d))

  pub total-optimize_eq : (l : List Term) → total (optimize_eq l) ≡ total l
  unfolding optimize_eq
  total-optimize_eq l = total-odd_keys (tally [] l) ∙ weighed-tally [] l ∙ false-xor _

  pub total-append : (l m : List Term) → total (l ++ m) ≡ xor (total l) (total m)
  total-append [] m = sym (false-xor _)
  total-append (e ∷ l) m = rw (total-append l m, xor_assoc)
