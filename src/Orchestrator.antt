-- ===== src/Orchestrator.antt =====
-- orchestrator.rs: the deposit check pass.
pub mod ChainResult
pub mod Scan
pub mod Pass
