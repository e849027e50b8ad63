-- ===== src/Worker/Live/Requests.antt =====
-- cbworker.rs over coinbase/mod.rs: how many requests a deposit costs.
use cryptosweep.Base.{String, ap, ◌≤◌, List, [], ◌∷◌, length, length-append, arith}
use cryptosweep.Types.Decimal.{DecimalLib}
use cryptosweep.Types.Error.{AppError, Result}
use cryptosweep.Types.State.{EligibleDeposit, BankPaymentOutcome, SellResult, WithdrawalResult}
use cryptosweep.Coinbase.Task.{Exchange}
use cryptosweep.Coinbase.Auth.{JwtLib}
use cryptosweep.Coinbase.Client.{LiveCoinbaseClient, ApiSerde}
use cryptosweep.Coinbase.Account.{by_id, by_list}
use cryptosweep.Coinbase.Sale.{SaleRun, nothing_sent, only_quoted, committed}
use cryptosweep.Coinbase.Withdrawal.{
  PayerRun, configured, found, WithdrawalRun, not_ordered, ordered,
}
use cryptosweep.Worker.Job.{Event, Runs}
use cryptosweep.Worker.Liquidate.{CbWorker, liquidate_pipeline}
use cryptosweep.Worker.Live.{
  AnswersAll, PipelineRun, over_limit, unsold, not_paid_out, paid_out,
  liquidate_pipeline-PipelineRun,
}

module _ (L : DecimalLib) (J : JwtLib) {Json : Type 0} (S : ApiSerde Json)
    (c : LiveCoinbaseClient J.SigningKey) where
  open L use {Decimal}

  SaleRun-length :
      (amount : Decimal) (xs : List (Exchange Json)) (r : Result (SellResult Decimal) AppError)
      → SaleRun L J S c amount xs r
      → length xs ≤ 2
  SaleRun-length amount xs r (nothing_sent e _) = omega (arith, ap length e)
  SaleRun-length amount xs r (only_quoted q a _ e _) = omega (arith, ap length e)
  SaleRun-length amount xs r (committed q q' a a' id _ _ _ e _) = omega (arith, ap length e)

  PayerRun-length :
      (xs : List (Exchange Json)) (x : Result String AppError)
      → PayerRun L J S c xs x
      → length xs ≤ 1
  PayerRun-length xs x (configured id _ e _) = omega (arith, ap length e)
  PayerRun-length xs x (found r _ (by_id id q a y _ _ e _ _) _) = omega (arith, ap length e)
  PayerRun-length xs x (found r _ (by_list q a y _ _ e _ _) _) = omega (arith, ap length e)

  WithdrawalRun-length :
      (amount : Decimal) (pm : String) (xs : List (Exchange Json))
      (r : Result (WithdrawalResult Decimal) AppError)
      → WithdrawalRun L J S c amount pm xs r
      → length xs ≤ 2
  WithdrawalRun-length amount pm xs r (not_ordered x payer _) =
      omega (arith, PayerRun-length xs x payer)
  WithdrawalRun-length amount pm xs r (ordered ys id q a payer _ e _) =
      omega (arith, ap length e, PayerRun-length ys _ payer, length-append ys ((q, a) ∷ []))

  PipelineRun-length :
      (w : CbWorker Decimal) (d : EligibleDeposit Decimal) (xs : List (Exchange Json))
      (o : BankPaymentOutcome Decimal)
      → PipelineRun L J S c w d xs o
      → length xs ≤ 4
  PipelineRun-length w d xs o (over_limit _ e _) = omega (arith, ap length e)
  PipelineRun-length w d xs o (unsold x _ sale _) = omega (arith, SaleRun-length _ xs _ sale)
  PipelineRun-length w d xs o (not_paid_out s x ys zs _ sale order e _) = omega (
    arith,
    ap length e,
    length-append ys zs,
    SaleRun-length _ ys _ sale,
    WithdrawalRun-length _ _ zs _ order,
  )
  PipelineRun-length w d xs o (paid_out s x ys zs _ sale order e _) = omega (
    arith,
    ap length e,
    length-append ys zs,
    SaleRun-length _ ys _ sale,
    WithdrawalRun-length _ _ zs _ order,
  )

  -- Whatever the exchange answers, a deposit costs at most four requests: nothing is retried.
  pub requests-le :
      (w : CbWorker Decimal) (d : EligibleDeposit Decimal) (t : List (Event Decimal))
      (o : BankPaymentOutcome Decimal) (xs : List (Exchange Json))
      → Runs (liquidate_pipeline L w d) t o
      → AnswersAll L J S c t xs
      → length xs ≤ 4
  requests-le w d t o xs runs all =
      PipelineRun-length w d xs o (liquidate_pipeline-PipelineRun L J S c w d t o xs runs all)
