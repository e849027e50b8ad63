-- ===== src/Tests.antt =====
-- Tests on concrete inputs.
mod Fixtures
mod Scan
mod Pass
mod Fetch
mod Jobs
mod Files
mod Alert
mod Encoding
mod Exchange
mod Invocation
mod Live
mod Texts
mod Detected
mod Processes
mod Started
mod Kept
mod Resumed
