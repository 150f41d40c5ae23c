-- ===== src/Mac/Receive/Frame.antt =====
-- Frames as they arrive, good and bad.
use liteeth.Prelude.{
  ℕ, suc, Bool, true, false, not, Bool-cases, inl, inr, ◌&&◌, ◌*◌, ◌^◌, ◌<◌, ◌≡◌, ◌==◌, refl, ap,
  ap₂, ◌∙◌, sym, arith,
}
use liteeth.Prelude.{List, [], ◌∷◌, ◌++◌, map, length, length-replicate}
use liteeth.Stream.{Beat}
use liteeth.Stream.Packets.{IsPacket}
use liteeth.Mac.Crc.Crc32.{init, error, crc_of}
use liteeth.Mac.Crc.Crc32.Trailer.{AllBelow, value_words, words_of_error, error-of_words}
use liteeth.Mac.Crc.Crc32.Feed.{length-crc_of}
use liteeth.Mac.Crc.Inserter.Stream.{open_beat}
use liteeth.Mac.Crc.Inserter.Packets.{word_of}

-- A frame behind its preamble: a packet, and the four words of its trailer.
pub record Frame : Type 0 where
  pub packet : List Beat
  pub words : List ℕ
  pub final : ℕ

abbrev pub crc_beat : Bool → ℕ → Beat
crc_beat last d = record { last = last; data_word = d; last_be = 0; error = 0 }

abbrev pub body : Frame → List Beat
body f = map open_beat f.packet ++ map (crc_beat false) f.words

abbrev pub beats : Frame → List Beat
beats f = body f ++ (crc_beat true f.final ∷ [])

-- Bytes, as many as a CRC has.
abbrev pub IsFrame : Frame → Type 0
IsFrame f = IsPacket f.packet × (length f.words ≡ 3) × AllBelow (2 ^ 8) f.words × (f.final < 2 ^ 8)

-- The register after the packet, and the register on the trailer's last word.
abbrev pub register : Frame → List Bool
register f = crc_of 8 init (map word_of f.packet)

abbrev pub flagged : Frame → Bool
flagged f = error 8 (crc_of 8 (register f) f.words) f.final

abbrev same_words : List ℕ → List ℕ → Bool
same_words [] [] = true
same_words (d ∷ ds) (e ∷ es) = d == e && same_words ds es
same_words _ _ = false

-- The trailer is the CRC of the packet.
abbrev pub is_good : Frame → Bool
is_good f = same_words (f.words ++ (f.final ∷ [])) (value_words 8 (register f) 0 4)

-- The packet with `e` for the error of its last beat, and no error before.
abbrev pub marked : ℕ → List Beat → List Beat
marked e [] = []
marked e (x ∷ []) = record x { error = e } ∷ []
marked e (x ∷ y ∷ p) = record x { error = 0 } ∷ marked e (y ∷ p)

same_words→eq : (ds es : List ℕ) → same_words ds es ≡ true → ds ≡ es
same_words→eq [] [] h = refl
same_words→eq [] (e ∷ es) h = cc
same_words→eq (d ∷ ds) [] h = cc
same_words→eq (d ∷ ds) (e ∷ es) h = ap₂ ◌∷◌ (ground arith) (same_words→eq ds es (ground arith))

pub same_words_self : (ds : List ℕ) → same_words ds ds ≡ true
same_words_self [] = refl
same_words_self (d ∷ ds) = ground (arith, same_words_self ds)

length-register : (f : Frame) → length (register f) ≡ 32
length-register f = length-crc_of 8 init (map word_of f.packet) (length-replicate 32 true)

module _ (f : Frame) (h : IsFrame f) where
  fits : suc (length f.words) * 8 ≡ 32
  fits = omega (arith, h.1)

  all_words : value_words 8 (register f) 0 4 ≡ value_words 8 (register f) 0 (suc (length f.words))
  all_words = ap (λ n. value_words 8 (register f) 0 (suc n)) (sym h.1)

  flagged_good : is_good f ≡ true → flagged f ≡ false
  flagged_good good =
      error-of_words 8 (register f) f.words f.final (length-register f) fits
        (same_words→eq _ _ good ∙ all_words)

  good_of_flagged : flagged f ≡ false → is_good f ≡ true
  good_of_flagged e =
      let same : f.words ++ (f.final ∷ []) ≡ value_words 8 (register f) 0 4 =
        words_of_error 8 (register f) f.words f.final (length-register f) fits h.2 h.3 e
        ∙ sym all_words in
      ap (λ ws. same_words ws (value_words 8 (register f) 0 4)) same
      ∙ same_words_self (value_words 8 (register f) 0 4)

  -- The comparison reports an error just when the trailer is not the CRC.
  pub flagged-is_good : flagged f ≡ not (is_good f)
  flagged-is_good = elim (Bool-cases (is_good f)) [
    | inl good ↦ rw good (flagged_good good)
    | inr bad ↦ rw bad (ground (arith, good_of_flagged))
  ]
