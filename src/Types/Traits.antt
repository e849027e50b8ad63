-- ===== src/Types/Traits.antt =====
-- types.rs: the block explorer as the orchestrator sees it.
use cryptosweep.Base.{String, ℕ}
use cryptosweep.Types.Error.{AppError, Result}
use cryptosweep.Types.State.{FetchReceivesOk}

-- The answers of an explorer during one run, by the arguments of the request.
pub record BlockExplorer (Decimal : Type 0) : Type 0 where
  pub get_block_height : Result ℕ AppError
  pub fetch_usdc_receives : String → ℕ → ℕ → Result (FetchReceivesOk Decimal) AppError
