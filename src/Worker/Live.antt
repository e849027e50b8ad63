-- ===== src/Worker/Live.antt =====
-- cbworker.rs over coinbase/mod.rs: a job whose calls the live client answers.
pub mod Requests
use cryptosweep.Base.{
  ◌≡◌, refl, sym, ap, subst, inl, inr, String, ◌<>◌, ℕ, ◌+◌, ◌≤◌, true, false, List, [], ◌∷◌, ◌++◌,
  length, length-append, Bool-cases, arith,
}
use mathlib.Core.List.{append-nil}
use cryptosweep.Types.Chain.{chain_name}
use cryptosweep.Types.Decimal.{DecimalLib}
use cryptosweep.Types.Error.{AppError, message, Result, ok, err}
use cryptosweep.Types.State.{
  EligibleDeposit, BankPaymentOutcome, initiated, failed, SellResult, WithdrawalResult,
}
use cryptosweep.Coinbase.Task.{Exchange, exchanges}
use cryptosweep.Coinbase.Task
use cryptosweep.Coinbase.Auth.{JwtLib}
use cryptosweep.Coinbase.Client.{LiveCoinbaseClient, ApiSerde}
use cryptosweep.Coinbase.Operations
use cryptosweep.Coinbase.Sale.{SaleRun, sell_usdc-SaleRun}
use cryptosweep.Coinbase.Withdrawal.{WithdrawalRun, withdraw_usd-WithdrawalRun}
use cryptosweep.Worker.Job.{Event, Runs, sell_usdc, sleep, withdraw_usd, notify}
use cryptosweep.Worker.Liquidate.{
  CbWorker, fail, threshold_text, after_withdrawal, after_sell, liquidate_pipeline,
}

module _ (L : DecimalLib) (J : JwtLib) {Json : Type 0} (S : ApiSerde Json)
    (c : LiveCoinbaseClient J.SigningKey) where
  open L use {Decimal, lt, to_string}

  -- The live client answers the call so, and exchanges these requests and answers for it.
  abbrev pub Answers : Event Decimal → List (Exchange Json) → Type 0
  Answers (sell_usdc amount, r) xs =
      (t : List (Task.Event Json)) × Task.Runs (Operations.sell_usdc L J S c amount) t r
      × (xs ≡ exchanges t)
  Answers (withdraw_usd amount payment_method_id, r) xs =
      (t : List (Task.Event Json)) × Task.Runs
        (Operations.withdraw_usd L J S c amount payment_method_id) t r
      × (xs ≡ exchanges t)
  Answers (sleep secs, _) xs = xs ≡ []
  Answers (notify message, _) xs = xs ≡ []

  -- What the client exchanges for a job with the trace.
  abbrev pub AnswersAll : List (Event Decimal) → List (Exchange Json) → Type 0
  AnswersAll [] xs = xs ≡ []
  AnswersAll (e ∷ t) xs =
      (ys : List (Exchange Json)) × (zs : List (Exchange Json)) × Answers e ys
      × AnswersAll t zs
      × (xs ≡ ys ++ zs)

  module _ (w : CbWorker Decimal) (d : EligibleDeposit Decimal) where
    -- The outcome is a failure, from the time of the deposit's processing, with this text around what
    -- all messages say of a deposit.
    abbrev pub FailedWith : String → String → BankPaymentOutcome Decimal → Type 0
    FailedWith head tail o =
        o
        ≡ failed
            (head
              <> (d.tx_hash <> " on " <> chain_name d.chain <> " — $" <> to_string d.usdc_amount)
              <> tail)
            d.processed_at

    -- What a job of the deposit does at the exchange, and what it reports.
    pub data PipelineRun (xs : List (Exchange Json)) (o : BankPaymentOutcome Decimal) : Type 0 where
      over_limit :
          lt w.max_auto_amount d.usdc_amount ≡ true
          → xs ≡ []
          → FailedWith "Deposit "
              (" exceeds threshold $"
                <> to_string w.max_auto_amount
                <> ". Recorded as Failed — manual intervention required.")
              o
          → PipelineRun xs o
      unsold :
          (e : AppError)
          → lt w.max_auto_amount d.usdc_amount ≡ false
          → SaleRun L J S c d.usdc_amount xs (err e)
          → FailedWith "Sell failed for deposit " (" USDC. Error: " <> message e) o
          → PipelineRun xs o
      not_paid_out :
          (s : SellResult Decimal) (e : AppError) (ys zs : List (Exchange Json))
          → lt w.max_auto_amount d.usdc_amount ≡ false
          → SaleRun L J S c d.usdc_amount ys (ok s)
          → WithdrawalRun L J S c s.usd_received d.payment_method_id zs (err e)
          → xs ≡ ys ++ zs
          → FailedWith "Withdrawal failed for deposit " (" USDC. Error: " <> message e) o
          → PipelineRun xs o
      paid_out :
          (s : SellResult Decimal) (p : WithdrawalResult Decimal) (ys zs : List (Exchange Json))
          → lt w.max_auto_amount d.usdc_amount ≡ false
          → SaleRun L J S c d.usdc_amount ys (ok s)
          → WithdrawalRun L J S c s.usd_received d.payment_method_id zs (ok p)
          → xs ≡ ys ++ zs
          → o ≡ initiated s.order_id s.usd_received p.withdrawal_transfer_id p.initiated_at
          → PipelineRun xs o

    fail-failed :
        (text : String) (t : List (Event Decimal)) (o : BankPaymentOutcome Decimal)
        (xs : List (Exchange Json))
        → Runs (fail text d.processed_at) t o
        → AnswersAll t xs
        → (xs ≡ []) × (o ≡ failed text d.processed_at)
    unfolding fail
    fail-failed text t o xs (_, rest, e, (e', eo)) all =
        let (ys, zs, none_sent, nothing, split) = subst (λ x. AnswersAll x xs) e all in
        let nothing' : zs ≡ [] = subst (λ x. AnswersAll x zs) e' nothing in
        (rw (split, none_sent, nothing') refl, eo)

    -- Behind a sale: the wait, the withdrawal and the outcome.
    withdrawal-PipelineRun :
        (s : SellResult Decimal) (r : Result (WithdrawalResult Decimal) AppError)
        (t : List (Event Decimal)) (o : BankPaymentOutcome Decimal)
        (ys zs rest : List (Exchange Json))
        → lt w.max_auto_amount d.usdc_amount ≡ false
        → SaleRun L J S c d.usdc_amount ys (ok s)
        → Answers (withdraw_usd s.usd_received d.payment_method_id, r) zs
        → Runs (after_withdrawal L w d s r) t o
        → AnswersAll t rest
        → PipelineRun (ys ++ (zs ++ rest)) o
    withdrawal-PipelineRun s (ok p) t o ys zs rest within sale (u, run, same) (e, eo) all =
        let nothing : rest ≡ [] = subst (λ x. AnswersAll x rest) e all in
        paid_out s p ys zs within sale
          (subst (λ x. WithdrawalRun L J S c s.usd_received d.payment_method_id x (ok p)) (sym same)
            (withdraw_usd-WithdrawalRun L J S c s.usd_received d.payment_method_id u (ok p) run))
          (rw (nothing, append-nil) refl) eo
    withdrawal-PipelineRun s (err m) t o ys zs rest within sale (u, run, same) runs all =
        let (nothing, bad) = fail-failed _ t o rest runs all in
        not_paid_out s m ys zs within sale
          (subst (λ x. WithdrawalRun L J S c s.usd_received d.payment_method_id x (err m))
            (sym same)
            (withdraw_usd-WithdrawalRun L J S c s.usd_received d.payment_method_id u (err m) run))
          (rw (nothing, append-nil) refl) bad

    sell-PipelineRun :
        (r : Result (SellResult Decimal) AppError) (t : List (Event Decimal))
        (o : BankPaymentOutcome Decimal) (ys rest : List (Exchange Json))
        → lt w.max_auto_amount d.usdc_amount ≡ false
        → SaleRun L J S c d.usdc_amount ys r
        → Runs (after_sell L w d r) t o
        → AnswersAll t rest
        → PipelineRun (ys ++ rest) o
    sell-PipelineRun (err m) t o ys rest within sale runs all =
        let (nothing, bad) = fail-failed _ t o rest runs all in
        unsold m within (rw (nothing, append-nil) sale) bad
    sell-PipelineRun (ok s) t o ys rest within sale (settled, t', e, (r, t'', e', runs)) all =
        let (sleeps, more, slept, others, split) = subst (λ x. AnswersAll x rest) e all in
        let (zs, last, order, final, split') = subst (λ x. AnswersAll x more) e' others in
        rw (split, slept, split')
          (withdrawal-PipelineRun s r t'' o ys zs last within sale order runs final)

    -- Whatever the exchange answers, a job whose calls the live client answers does one of these: it
    -- exchanges nothing, for a deposit over the limit; it makes a sale of the deposit's amount
    -- that fails; or this sale succeeds and one withdrawal follows, of exactly what the exchange said
    -- the sale brought, to the deposit's payment method. The deposit is recorded as initiated exactly
    -- in the last case where the withdrawal succeeds too, with the ids that the exchange gave. In all
    -- other cases the record is a failure whose text names the deposit and says which case it is, with
    -- the error of the sale or of the withdrawal.
    pub liquidate_pipeline-PipelineRun :
        (t : List (Event Decimal)) (o : BankPaymentOutcome Decimal) (xs : List (Exchange Json))
        → Runs (liquidate_pipeline L w d) t o
        → AnswersAll t xs
        → PipelineRun xs o
    unfolding liquidate_pipeline
    liquidate_pipeline-PipelineRun t o xs runs all =
        elim (Bool-cases (lt w.max_auto_amount d.usdc_amount)) [
          | inl over ↦
              let (nothing, bad) =
                fail-failed (threshold_text L w d) t o xs (rw (over, liquidate_pipeline) at runs)
                  all in
              over_limit over nothing bad
          | inr within ↦
              let (r, rest, e, runs') = rw (within, liquidate_pipeline) at runs in
              let (ys, zs, (u, run, same), others, split) = subst (λ x. AnswersAll x xs) e all in
              rw split (
                sell-PipelineRun r rest o ys zs within
                  (subst (λ x. SaleRun L J S c d.usdc_amount x r) (sym same)
                    (sell_usdc-SaleRun L J S c d.usdc_amount u r run))
                  runs' others)
        ]
