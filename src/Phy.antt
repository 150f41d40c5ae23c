-- ===== src/Phy.antt =====
-- liteeth/phy/: the layers below the MAC.
pub mod Pcs
