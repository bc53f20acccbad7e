-- ===== src/Storage/Lsm.antt =====
-- src/storage/lsm: the log-structured tables.
pub mod Bloom
pub mod Block
pub mod Coding
pub mod MemTable
pub mod Sstable
