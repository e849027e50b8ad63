-- ===== src/Worker/Liquidate.antt =====
-- cbworker.rs: the processing of one deposit.
use cryptosweep.Base.{String, ◌<>◌, ℕ, if◌then◌else◌}
use cryptosweep.Types.Chain.{chain_name}
use cryptosweep.Types.Decimal.{DecimalLib}
use cryptosweep.Types.Error.{AppError, Result, ok, err, message}
use cryptosweep.Types.State.{
  EligibleDeposit, BankPaymentOutcome, initiated, failed, LiquidationResult, SellResult,
  WithdrawalResult, make_id,
}
use cryptosweep.Worker.Job.{Job, done, sell_usdc, sleep, withdraw_usd, notify, perform, ◌>>=◌, ◌>>◌}

-- The limits of the worker; its clients are the calls of a job.
pub record CbWorker (D : Type 0) : Type 0 where
  pub max_auto_amount : D
  pub sell_settle_delay_secs : ℕ

-- `CbWorker::fail`. A notification that is not delivered is only logged.
unfoldable pub fail : {D : Type 0} → String → ℕ → Job D (BankPaymentOutcome D)
fail text processed_at = do perform (notify text); done (failed text processed_at)

module _ (L : DecimalLib) (w : CbWorker L.Decimal) where
  open L use {Decimal, lt, to_string}

  -- `{} on {} — ${}`: the part that all messages share.
  abbrev pub describe : EligibleDeposit Decimal → String
  describe d = d.tx_hash <> " on " <> chain_name d.chain <> " — $" <> to_string d.usdc_amount

  abbrev pub threshold_text : EligibleDeposit Decimal → String
  threshold_text d =
      "Deposit "
      <> describe d
      <> " exceeds threshold $"
      <> to_string w.max_auto_amount
      <> ". Recorded as Failed — manual intervention required."

  abbrev pub sell_text : EligibleDeposit Decimal → String → String
  sell_text d e = "Sell failed for deposit " <> describe d <> " USDC. Error: " <> e

  abbrev pub withdrawal_text : EligibleDeposit Decimal → String → String
  withdrawal_text d e = "Withdrawal failed for deposit " <> describe d <> " USDC. Error: " <> e

  -- The arms of the `match` on the withdrawal, and of the one on the sale.
  abbrev pub after_withdrawal :
      EligibleDeposit Decimal
      → SellResult Decimal
      → Result (WithdrawalResult Decimal) AppError
      → Job Decimal (BankPaymentOutcome Decimal)
  after_withdrawal d sell_result (err e) = fail (withdrawal_text d (message e)) d.processed_at
  after_withdrawal d sell_result (ok withdrawal) = done (
      initiated sell_result.order_id sell_result.usd_received withdrawal.withdrawal_transfer_id
        withdrawal.initiated_at)

  abbrev pub after_sell :
      EligibleDeposit Decimal
      → Result (SellResult Decimal) AppError
      → Job Decimal (BankPaymentOutcome Decimal)
  after_sell d (err e) = fail (sell_text d (message e)) d.processed_at
  after_sell d (ok sell_result) = do
    perform (sleep w.sell_settle_delay_secs)
    withdrawn ← perform (withdraw_usd sell_result.usd_received d.payment_method_id)
    after_withdrawal d sell_result withdrawn

  unfoldable pub liquidate_pipeline :
      EligibleDeposit Decimal → Job Decimal (BankPaymentOutcome Decimal)
  unfolding fail
  liquidate_pipeline d =
      if lt w.max_auto_amount d.usdc_amount
      then fail (threshold_text d) d.processed_at
      else do sold ← perform (sell_usdc d.usdc_amount); after_sell d sold

  abbrev pub record_of :
      (ℕ → String)
      → EligibleDeposit Decimal
      → BankPaymentOutcome Decimal
      → LiquidationResult Decimal
  record_of format_date d outcome = record {
    payment = record {
      id = make_id format_date d.processed_at d.tx_hash;
      deposit_address = d.deposit_address;
      chain = d.chain;
      deposit_tx_hash = d.tx_hash;
      usdc_amount = d.usdc_amount;
      payment_method_id = d.payment_method_id;
      outcome = outcome;
      deposit_timestamp = d.deposit_timestamp;
      processed_at = d.processed_at;
    };
    tx_hash = d.tx_hash;
  }

  unfoldable pub liquidate_one :
      (ℕ → String) → EligibleDeposit Decimal → Job Decimal (LiquidationResult Decimal)
  liquidate_one format_date d = do
    outcome ← liquidate_pipeline d
    done (record_of format_date d outcome)
