-- ===== src/Worker.antt =====
-- cbworker.rs: the worker that sells and withdraws.
pub mod Job
pub mod Liquidate
pub mod Safety
pub mod Pool
pub mod Live
