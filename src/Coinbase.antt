-- ===== src/Coinbase.antt =====
-- coinbase/: the client of the exchange.
pub mod Models
pub mod Task
pub mod Auth
pub mod Token
pub mod Key
pub mod Client
pub mod Operations
pub mod Reads
pub mod Requests
pub mod Signed
pub mod Amounts
pub mod Sale
pub mod Account
pub mod Withdrawal
