-- ===== src/Types/State.antt =====
-- types.rs: deposits, audit records and the persisted state.
-- A moment is the number of nanoseconds since the Unix epoch.
use Prim.Native.String.{len, slice}
use cryptosweep.Base.{String, ◌<>◌, ℕ, min, List, []}
use cryptosweep.Base.Dict.{Dict}
use cryptosweep.Base.StringSet.{StringSet}
use cryptosweep.Types.Chain.{Chain}

pub data BankPaymentOutcome (Decimal : Type 0) : Type 0 where
  initiated :
      (sell_order_id : String) (usd_proceeds : Decimal) (withdrawal_transfer_id : String)
      (initiated_at : ℕ)
      → BankPaymentOutcome Decimal
  failed : (error : String) (failed_at : ℕ) → BankPaymentOutcome Decimal

pub record BankPayment (Decimal : Type 0) : Type 0 where
  pub id : String
  pub deposit_address : String
  pub chain : Chain
  pub deposit_tx_hash : String
  pub usdc_amount : Decimal
  pub payment_method_id : String
  pub outcome : BankPaymentOutcome Decimal
  pub deposit_timestamp : ℕ
  pub processed_at : ℕ

-- `BankPayment::make_id`, over the library's date format `%Y%m%d`.
unfoldable pub make_id : (ℕ → String) → ℕ → String → String
make_id format_date processed_at tx_hash =
    format_date processed_at <> "-" <> slice tx_hash 0 (min 8 (len tx_hash))

pub record LastSeenBlock : Type 0 where
  pub block_number : ℕ
  pub updated_at : ℕ

pub record PersistedState (Decimal : Type 0) : Type 0 where
  pub bank_payments : Dict String (BankPayment Decimal)
  pub processed_tx_hashes : StringSet
  pub last_seen_block : Dict Chain LastSeenBlock

-- `PersistedState::default()`
abbrev pub empty_state : {D : Type 0} → PersistedState D
empty_state = record { bank_payments = []; processed_tx_hashes = []; last_seen_block = [] }

pub record EligibleDeposit (Decimal : Type 0) : Type 0 where
  pub deposit_address : String
  pub chain : Chain
  pub tx_hash : String
  pub usdc_amount : Decimal
  pub payment_method_id : String
  pub deposit_timestamp : ℕ
  pub processed_at : ℕ

pub record LiquidationResult (Decimal : Type 0) : Type 0 where
  pub payment : BankPayment Decimal
  pub tx_hash : String

pub record SellResult (Decimal : Type 0) : Type 0 where
  pub order_id : String
  pub usdc_sold : Decimal
  pub usd_received : Decimal
  pub executed_at : ℕ

pub record WithdrawalResult (Decimal : Type 0) : Type 0 where
  pub withdrawal_transfer_id : String
  pub usd_amount : Decimal
  pub initiated_at : ℕ

pub record UsdcReceive (Decimal : Type 0) : Type 0 where
  pub tx_hash : String
  pub amount : Decimal
  pub block_number : ℕ
  pub fetched_at : ℕ

pub record FetchReceivesOk (Decimal : Type 0) : Type 0 where
  pub receives : List (UsdcReceive Decimal)
  pub confirmed_frontier : ℕ
