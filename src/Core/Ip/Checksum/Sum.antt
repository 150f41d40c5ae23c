-- ===== src/Core/Ip/Checksum/Sum.antt =====
-- The one's complement sum of a list of words.
use liteeth.Prelude.{ℕ, ◌+◌, ◌-◌, ◌%◌, ◌^◌, ◌<◌, ◌≡◌, ◌==◌, if◌then◌else◌, arith, ap, ◌∙◌}
use liteeth.Prelude.{List, [], ◌∷◌}
use liteeth.Core.Ip.Checksum.{stage}

abbrev pub AllWords : List ℕ → Type 0
AllWords [] = Unit
AllWords (w ∷ ws) = (w < 2 ^ 16) × AllWords ws

abbrev pub sum : List ℕ → ℕ
sum [] = 0
sum (w ∷ ws) = w + sum ws

-- The stages in a row.
abbrev pub ones_sum : ℕ → List ℕ → ℕ
ones_sum r [] = r
ones_sum r (w ∷ ws) = ones_sum (stage r w) ws

-- RFC 1071 sees the sum modulo 65535, with 65535 for a multiple that is not zero.
abbrev pub canonical : ℕ → ℕ
canonical n = if n == 0 then 0 else (n - 1) % 65535 + 1

stage-canonical : (a w : ℕ) → w < 2 ^ 16 → stage (canonical a) w ≡ canonical (a + w)
unfolding stage
stage-canonical a w h = ground arith

pub ones_sum-canonical :
    (a : ℕ) (ws : List ℕ) → AllWords ws → ones_sum (canonical a) ws ≡ canonical (a + sum ws)
ones_sum-canonical a [] h = ap canonical (omega arith)
ones_sum-canonical a (w ∷ ws) h =
    ap (λ r. ones_sum r ws) (stage-canonical a w h.0)
    ∙ ones_sum-canonical (a + w) ws h.1
    ∙ ap canonical (omega arith)
