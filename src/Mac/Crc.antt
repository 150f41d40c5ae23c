-- ===== src/Mac/Crc.antt =====
-- liteeth/mac/crc.py
pub mod Engine
pub mod Residue
pub mod Crc32
pub mod Inserter
pub mod Checker
