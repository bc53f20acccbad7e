-- ===== src/Index.antt =====
-- src/index: the indexes.
pub mod Key
