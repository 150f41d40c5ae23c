-- ===== src/Stream/Packets.antt =====
-- Packets on a stream of `eth_phy_description`: runs of beats that end at `last`.
use liteeth.Prelude.{true, false, List, [], ◌∷◌, ◌++◌, ◌≡◌}
use liteeth.Stream.{Beat}

abbrev pub IsPacket : List Beat → Type 0
IsPacket [] = ⊥
IsPacket (x ∷ []) = x.last ≡ true
IsPacket (x ∷ y ∷ xs) = (x.last ≡ false) × IsPacket (y ∷ xs)

abbrev pub ArePackets : List (List Beat) → Type 0
ArePackets [] = Unit
ArePackets (p ∷ ps) = IsPacket p × ArePackets ps

abbrev pub concat : {A : Type 0} → List (List A) → List A
concat [] = []
concat (p ∷ ps) = p ++ concat ps
