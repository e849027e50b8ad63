-- ===== src/Persistence.antt =====
-- persistence.rs: the state file, and the lock.
pub mod Prune
pub mod File
pub mod Lock
