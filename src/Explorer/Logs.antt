-- ===== src/Explorer/Logs.antt =====
-- explorer.rs: one request for transfer logs, and how a log becomes a receive.
pub mod Parsed
use cryptosweep.Base.{String, ◌<>◌, ℕ, ◌^◌, Option, none, some, List, [], ◌∷◌, map}
use cryptosweep.Base.{ltb, show_nat, if◌then◌else◌}
use cryptosweep.Types.Chain.{Chain, chain_name}
use cryptosweep.Types.Decimal.{DecimalLib}
use cryptosweep.Types.Error.{AppError, explorer, Result, ok, err, map_err, ◌>>=◌}
use cryptosweep.Types.State.{UsdcReceive}

abbrev pub usdc_decimals : ℕ
usdc_decimals = 6

abbrev pub transfer_event_topic : String
transfer_event_topic = "0xddf252ad1be2c89b69c2b068fc378daa952ba7f163c4a11628f55a4df523b3ef"

-- A log of the provider: the fields that the program reads, the hash as `{:#x}` shows it and the
-- data read as a big-endian integer below 2 ^ 256.
pub record Log : Type 0 where
  pub block_number : Option ℕ
  pub transaction_hash : Option String
  pub raw_amount : ℕ

pub record Filter (Address : Type 0) : Type 0 where
  pub contract : Address
  pub from_block : ℕ
  pub to_block : ℕ
  pub event_signature : String
  pub topic2 : Address

-- Transfer events of the contract to the deposit address.
abbrev pub transfer_filter : {Address : Type 0} → Address → Address → ℕ → ℕ → Filter Address
transfer_filter usdc_contract deposit_address from to = record {
  contract = usdc_contract;
  from_block = from;
  to_block = to;
  event_signature = transfer_event_topic;
  topic2 = deposit_address;
}

abbrev pub ok_or : {A : Type 0} → Option A → AppError → Result A AppError
ok_or none e = err e
ok_or (some a) e = ok a

-- `collect` into a `Result`: the first error wins.
unfoldable pub collect : {A : Type 0} → List (Result A AppError) → Result (List A) AppError
collect [] = ok []
collect (r ∷ rs) = do a ← r; as' ← collect rs; ok (a ∷ as')

module _ (L : DecimalLib) where
  open L use {Decimal, from_u128, from_u64, div}

  unfoldable pub u256_to_decimal : ℕ → ℕ → Result Decimal AppError
  u256_to_decimal raw decimals =
      if ltb raw (2 ^ 128)
      then ok (div (from_u128 raw) (from_u64 (10 ^ decimals)))
      else err (explorer ("U256 value " <> show_nat raw <> " too large for u128"))

  unfoldable pub receive_of_log : ℕ → Log → Result (UsdcReceive Decimal) AppError
  unfolding u256_to_decimal
  receive_of_log fetched_at log = do
    block_number ← ok_or log.block_number (explorer "Log missing block_number")
    tx_hash ← ok_or log.transaction_hash (explorer "Log missing transaction_hash")
    amount ← u256_to_decimal log.raw_amount usdc_decimals
    ok (record {
      tx_hash = tx_hash;
      amount = amount;
      block_number = block_number;
      fetched_at = fetched_at;
    })

  module _ {Address : Type 0} (get_logs : Filter Address → Result (List Log) String) (chain : Chain)
      (usdc_contract : Address) where
    unfoldable pub fetch_receives_chunk :
        Address → ℕ → ℕ → ℕ → Result (List (UsdcReceive Decimal)) AppError
    unfolding collect
    fetch_receives_chunk deposit_address from to fetched_at = do
      logs ←
          map_err
            (λ e. explorer (
              chain_name chain
              <> ": get_logs failed for blocks "
              <> show_nat from
              <> "-"
              <> show_nat to
              <> ": "
              <> e))
            (get_logs (transfer_filter usdc_contract deposit_address from to))
      collect (map (receive_of_log fetched_at) logs)
