-- ===== src/Sql.antt =====
-- src/sql: the front end.
pub mod Datetime
