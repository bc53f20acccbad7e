-- ===== src/Db.antt =====
-- src/db: transactions and concurrency control.
pub mod Clog
pub mod Ssi
pub mod LockManager
pub mod Transaction
