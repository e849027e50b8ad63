-- ===== src/Types.antt =====
-- types.rs: the data that the components share.
pub mod Chain
pub mod Decimal
pub mod Error
pub mod State
pub mod Address
pub mod Traits
