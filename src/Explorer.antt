-- ===== src/Explorer.antt =====
-- explorer.rs: log queries for USDC transfers, chunked over a block range.
pub mod Chunks
pub mod Logs
pub mod Live
pub mod Create
