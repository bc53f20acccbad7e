-- ===== src/Storage.antt =====
-- src/storage: the pages below the tables, and the log-structured tables.
pub mod Replacer
pub mod Lsm
pub mod Codec
pub mod Header
pub mod Slotted
