-- ===== src/Mac/Crc/Engine.antt =====
-- `LiteEthMACCRCEngine` of liteeth/mac/crc.py: the equations that it derives for a parallel CRC.
pub mod Optimize
pub mod Serial
pub mod Equal
pub mod Onto
pub mod Correct
use liteeth.Prelude.{ℕ, zero, suc, Bool, true, false, not, ◌+◌, ◌/◌, ◌%◌, ◌^◌, ◌&&◌, ◌==◌, ltb}
use liteeth.Prelude.{List, [], ◌∷◌, ◌++◌, Option, none, some, map, if◌then◌else◌, xor}

-- `("state", i)` and `("din", i)`
pub data Term : Type 0 where
  state : ℕ → Term
  din : ℕ → Term

abbrev pub term_eq : Term → Term → Bool
term_eq (state i) (state j) = i == j
term_eq (din i) (din j) = i == j
term_eq _ _ = false

-- The dictionary `d` of `_optimize_eq`, in the order of insertion.
unfoldable pub bump : Term → List (Term × ℕ) → List (Term × ℕ)
bump e [] = (e, 1) ∷ []
bump e ((k, n) ∷ d) = if term_eq e k then (k, n + 1) ∷ d else (k, n) ∷ bump e d

unfoldable pub tally : List (Term × ℕ) → List Term → List (Term × ℕ)
tally d [] = d
tally d (e ∷ l) = tally (bump e d) l

unfoldable pub odd_keys : List (Term × ℕ) → List Term
odd_keys [] = []
odd_keys ((k, n) ∷ d) = let rest = odd_keys d in if n % 2 == 0 then rest else k ∷ rest

-- `_optimize_eq`
unfoldable pub optimize_eq : List Term → List Term
optimize_eq l = odd_keys (tally [] l)

-- `x in taps`
abbrev pub in_taps : ℕ → ℕ → ℕ → Bool
in_taps width polynom x = ltb x width && polynom / 2 ^ x % 2 == 1

-- `list.pop` on `x ∷ xs`
unfoldable pub pop {ℓ} : {A : Type ℓ} → A → List A → List A × A
pop x [] = ([], x)
pop x (y ∷ ys) = let (rest, popped) = pop y ys in (x ∷ rest, popped)

-- The loop over `j`, from index `j` on.
module _ (width polynom : ℕ) where
  unfoldable pub mix : ℕ → List Term → List (List Term) → List (List Term)
  mix j feedback [] = []
  mix j feedback (c ∷ cs) =
      optimize_eq (if in_taps width polynom (j + 1) then c ++ feedback else c)
      ∷ mix (j + 1) feedback cs

  -- The loop over `i`, one round: `curval` has `width` entries, one at least.
  unfoldable pub round : ℕ → List (List Term) → List (List Term)
  round i [] = []
  round i (c ∷ cs) =
      let (rest, popped) = pop c cs in
      let feedback = popped ++ (din i ∷ []) in feedback ∷ mix 0 feedback rest

  unfoldable pub states : ℕ → ℕ → List (List Term)
  states i zero = []
  states i (suc n) = (state i ∷ []) ∷ states (i + 1) n

  -- `curval` after the rounds `0 … n - 1`
  unfoldable pub curval : ℕ → List (List Term)
  curval zero = states 0 width
  curval (suc n) = round n (curval n)

-- The signals of the engine: bit `i` of `last` and of `data`.
abbrev pub bit_of : (ℕ → Bool) → (ℕ → Bool) → Term → Bool
bit_of last word (state n) = last n
bit_of last word (din n) = word n

-- `reduce(xor, xors)`, which raises on an empty list.
unfoldable pub reduce_from : Bool → List Bool → Bool
reduce_from b [] = b
reduce_from b (c ∷ cs) = reduce_from (xor b c) cs

unfoldable pub reduce_xor : List Bool → Option Bool
reduce_xor [] = none
reduce_xor (b ∷ bs) = some (reduce_from b bs)

-- The bits of `next`, lowest first.
unfoldable pub next : ℕ → ℕ → ℕ → (ℕ → Bool) → (ℕ → Bool) → List (Option Bool)
next data_width width polynom last word =
    map (λ c. reduce_xor (map (bit_of last word) c)) (curval width polynom data_width)
