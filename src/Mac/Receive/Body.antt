-- ===== src/Mac/Receive/Body.antt =====
-- What the receiving side makes of the beats after a preamble.
use mathlib.Core.List.{append_assoc}
use liteeth.Prelude.{Bool, true, false, not, ◌≡◌, ◌==◌, ◌&&◌, refl, ap, ap₂, ◌∙◌, sym, arith}
use liteeth.Prelude.{List, [], ◌∷◌, ◌++◌, map, length, if◌then◌else◌}
use liteeth.Stream.{Beat}
use liteeth.Stream.Fifo.{first}
use liteeth.Mac.Preamble.{hunt, copying}
use liteeth.Mac.Crc.Crc32.{init, engine_next, crc_of}
use liteeth.Mac.Crc.Inserter.Packets.{word_of}
use liteeth.Mac.Receive.Stream.{received, passed, pushed}
use liteeth.Mac.Receive.Queue.{clean, pushed_all, front}

abbrev pub AllOpen : List Beat → Type 0
AllOpen [] = Unit
AllOpen (u ∷ us) = (u.last ≡ false) × AllOpen us

-- `error` counts on a packet's last beat alone: before, the CRC is not complete.
abbrev pub unflagged : Beat → Beat
unflagged x = if x.last then x else record x { error = 0 }

pub map-append :
    {A B : Type 0} → (f : A → B) (xs ys : List A) → map f (xs ++ ys) ≡ map f xs ++ map f ys
map-append f [] ys = refl
map-append f (x ∷ xs) ys = ap (λ t. f x ∷ t) (map-append f xs ys)

module _ (junk : Beat) where
  passed-open :
      (reg : List Bool) (q : List Beat) (u : Beat)
      → u.last ≡ false
      → map unflagged (passed junk reg q u)
        ≡ (if length q == 4 then clean (first junk q) ∷ [] else [])
  passed-open reg q u h = ground arith

  abbrev goes_on : Bool → Bool → List Bool → List Beat → Beat → List Beat → List Beat
  goes_on last fresh reg q x xs =
      let resets = last && not fresh in
      received junk (if last then hunt else copying) resets
        (if resets then init else engine_next 8 reg x.data_word)
        (if resets then [] else pushed junk q x) xs

  received_last :
      (reg : List Bool) (q : List Beat) (z : Beat) (ys : List Beat)
      → z.last ≡ true
      → received junk copying false reg q (z ∷ ys)
        ≡ passed junk reg q z ++ received junk hunt true init [] ys
  received_last reg q z ys h = ap (λ b. passed junk reg q z ++ goes_on b false reg q z ys) h

  received_open :
      (fresh : Bool) (reg : List Bool) (q : List Beat) (u : Beat) (xs : List Beat)
      → u.last ≡ false
      → received junk copying fresh reg q (u ∷ xs)
        ≡ passed junk reg q u
          ++ received junk copying false (engine_next 8 reg u.data_word) (pushed junk q u) xs
  received_open fresh reg q u xs h = ap (λ b. passed junk reg q u ++ goes_on b fresh reg q u xs) h

  -- What comes out for the beats `us`, the last beat `z` and all that follows.
  abbrev pub sent : List Bool → List Beat → List Beat → Beat → List Beat → List Beat
  sent reg q us z ys =
      front junk q us
      ++ (map unflagged (passed junk (crc_of 8 reg (map word_of us)) (pushed_all junk q us) z)
          ++ map unflagged (received junk hunt true init [] ys))

  first_open :
      (fresh : Bool) (reg : List Bool) (q us : List Beat) (u z : Beat) (ys : List Beat)
      → u.last ≡ false
      → map unflagged (
          received junk copying false
            (engine_next 8 reg u.data_word)
            (pushed junk q u)
            (us ++ (z ∷ ys)))
        ≡ sent (engine_next 8 reg u.data_word) (pushed junk q u) us z ys
      → map unflagged (received junk copying fresh reg q (u ∷ us ++ (z ∷ ys)))
        ≡ sent reg q (u ∷ us) z ys
  unfolding crc_of
  first_open fresh reg q us u z ys o h =
      let reg' = engine_next 8 reg u.data_word in
      ap (map unflagged) (received_open fresh reg q u (us ++ (z ∷ ys)) o)
      ∙ map-append unflagged (passed junk reg q u)
          (received junk copying false reg' (pushed junk q u) (us ++ (z ∷ ys)))
      ∙ ap₂ ◌++◌ (passed-open reg q u o) h
      ∙ sym (
          append_assoc (if length q == 4 then clean (first junk q) ∷ [] else [])
            (front junk (pushed junk q u) us)
            (map unflagged (
                passed junk (crc_of 8 reg' (map word_of us)) (pushed_all junk (pushed junk q u) us)
                  z)
              ++ map unflagged (received junk hunt true init [] ys)))

  received-sent :
      (reg : List Bool) (q us : List Beat) (z : Beat) (ys : List Beat)
      → AllOpen us
      → z.last ≡ true
      → map unflagged (received junk copying false reg q (us ++ (z ∷ ys))) ≡ sent reg q us z ys
  unfolding crc_of
  received-sent reg q [] z ys o h =
      ap (map unflagged) (received_last reg q z ys h)
      ∙ map-append unflagged (passed junk reg q z) (received junk hunt true init [] ys)
  received-sent reg q (u ∷ us) z ys o h =
      first_open false reg q us u z ys o.0
        (received-sent (engine_next 8 reg u.data_word) (pushed junk q u) us z ys o.1 h)

  pub received_fresh-sent :
      (reg : List Bool) (q us : List Beat) (u z : Beat) (ys : List Beat)
      → AllOpen (u ∷ us)
      → z.last ≡ true
      → map unflagged (received junk copying true reg q (u ∷ us ++ (z ∷ ys)))
        ≡ sent reg q (u ∷ us) z ys
  received_fresh-sent reg q us u z ys o h =
      first_open true reg q us u z ys o.0
        (received-sent (engine_next 8 reg u.data_word) (pushed junk q u) us z ys o.1 h)
