-- ===== src/Types/Decimal.antt =====
-- The third-party decimal numbers (crate rust_decimal) as an interface: what the program calls.
use cryptosweep.Base.{String, ℕ, Bool, Option}

pub record DecimalLib : Type 1 where
  pub Decimal : Type 0
  -- `a < b`; `a > b` is `lt b a`
  pub lt : Decimal → Decimal → Bool
  -- the literal `dec!(m / 10^s)`, from its digits `m` and its scale `s`
  pub dec : ℕ → ℕ → Decimal
  -- `Decimal::from`, at `u128` and at `u64`
  pub from_u128 : ℕ → Decimal
  pub from_u64 : ℕ → Decimal
  pub div : Decimal → Decimal → Decimal
  pub to_string : Decimal → String
  -- `Decimal::from_str(..).ok()`
  pub from_str : String → Option Decimal
