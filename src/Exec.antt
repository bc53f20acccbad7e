-- ===== src/Exec.antt =====
-- src/exec: how expressions are evaluated.
pub mod Chars
pub mod Like
pub mod Int64
pub mod Binary
