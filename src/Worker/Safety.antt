-- ===== src/Worker/Safety.antt =====
-- cbworker.rs: what a job does with the money, whatever its services answer.
use cryptosweep.Base.{◌≡◌, refl, ◌⊎◌, inl, inr, String, List, [], ◌∷◌, false, Bool-cases}
use cryptosweep.Types.Decimal.{DecimalLib}
use cryptosweep.Types.Error.{AppError, Result, ok, err}
use cryptosweep.Types.State.{
  EligibleDeposit, BankPaymentOutcome, initiated, failed, SellResult, WithdrawalResult,
}
use cryptosweep.Worker.Job.{Event, Runs, sell_usdc, sleep, withdraw_usd, notify}
use cryptosweep.Worker.Liquidate.{
  CbWorker, fail, threshold_text, after_withdrawal, after_sell, liquidate_pipeline,
}

module _ {D : Type 0} where
  -- The amounts that a trace sells, the amounts that the exchange has paid for them, the
  -- withdrawals that it orders, those that are accepted and the texts that it sends to the user.
  abbrev pub sells : List (Event D) → List D
  sells [] = []
  sells ((sell_usdc amount, _) ∷ t) = amount ∷ sells t
  sells (_ ∷ t) = sells t

  abbrev pub proceeds : List (Event D) → List D
  proceeds [] = []
  proceeds ((sell_usdc amount, ok r) ∷ t) = r.usd_received ∷ proceeds t
  proceeds (_ ∷ t) = proceeds t

  abbrev pub withdrawals : List (Event D) → List (D × String)
  withdrawals [] = []
  withdrawals ((withdraw_usd amount pm, _) ∷ t) = (amount, pm) ∷ withdrawals t
  withdrawals (_ ∷ t) = withdrawals t

  abbrev pub transfers : List (Event D) → List String
  transfers [] = []
  transfers ((withdraw_usd amount pm, ok r) ∷ t) = r.withdrawal_transfer_id ∷ transfers t
  transfers (_ ∷ t) = transfers t

  abbrev pub notices : List (Event D) → List String
  notices [] = []
  notices ((notify text, _) ∷ t) = text ∷ notices t
  notices (_ ∷ t) = notices t

module _ (L : DecimalLib) (w : CbWorker L.Decimal) (d : EligibleDeposit L.Decimal) where
  open L use {Decimal, lt}

  -- At most the deposit's amount is sold, once, and only within the limit.
  abbrev pub SoldWithinLimit : List (Event Decimal) → Type 0
  SoldWithinLimit t =
      (sells t ≡ [])
      ⊎ ((sells t ≡ d.usdc_amount ∷ []) × (lt w.max_auto_amount d.usdc_amount ≡ false))

  -- At most one withdrawal is ordered: of what the sale has paid, to the deposit's payment method.
  abbrev pub WithdrawnFromProceeds : List (Event Decimal) → Type 0
  WithdrawnFromProceeds t =
      (withdrawals t ≡ [])
      ⊎ ((p : Decimal) × (proceeds t ≡ p ∷ []) × (withdrawals t ≡ (p, d.payment_method_id) ∷ []))

  -- The outcome tells what has happened: a transfer was accepted and the user is not alerted, or
  -- none was and the user is alerted once, with the text of the record.
  abbrev pub Accounts : BankPaymentOutcome Decimal → List (Event Decimal) → Type 0
  Accounts (initiated order usd transfer at) t =
      (proceeds t ≡ usd ∷ []) × (transfers t ≡ transfer ∷ []) × (notices t ≡ [])
  Accounts (failed text at) t = (transfers t ≡ []) × (notices t ≡ text ∷ []) × (at ≡ d.processed_at)

  pub record IsSafe (t : List (Event Decimal)) (o : BankPaymentOutcome Decimal) : Type 0 where
    pub sold : SoldWithinLimit t
    pub withdrawn : WithdrawnFromProceeds t
    pub accounts : Accounts o t

  -- The trace behind an accepted withdrawal of a sale's proceeds, and behind a rejected one.
  withdrawal-IsSafe :
      (sold : SellResult Decimal) (settled : Unit {0})
      (withdrawn : Result (WithdrawalResult Decimal) AppError) (t : List (Event Decimal))
      (o : BankPaymentOutcome Decimal)
      → lt w.max_auto_amount d.usdc_amount ≡ false
      → Runs (after_withdrawal L w d sold withdrawn) t o
      → IsSafe
          ((sell_usdc d.usdc_amount, ok sold)
            ∷ (sleep w.sell_settle_delay_secs, settled)
            ∷ (withdraw_usd sold.usd_received d.payment_method_id, withdrawn)
            ∷ t)
          o
  unfolding fail
  withdrawal-IsSafe sold settled (ok r) t o within (e, eo) =
      rw (e, eo)
        (record {
          sold = inr (refl, within);
          withdrawn = inr (sold.usd_received, refl, refl);
          accounts = (refl, refl, refl);
        })
  withdrawal-IsSafe sold settled (err m) t o within (_, rest, e, (e', eo)) =
      rw (e, e', eo)
        (record {
          sold = inr (refl, within);
          withdrawn = inr (sold.usd_received, refl, refl);
          accounts = (refl, refl, refl);
        })

  sell-IsSafe :
      (sold : Result (SellResult Decimal) AppError) (t : List (Event Decimal))
      (o : BankPaymentOutcome Decimal)
      → lt w.max_auto_amount d.usdc_amount ≡ false
      → Runs (after_sell L w d sold) t o
      → IsSafe ((sell_usdc d.usdc_amount, sold) ∷ t) o
  unfolding fail
  sell-IsSafe (err m) t o within (_, rest, e, (e', eo)) =
      rw (e, e', eo)
        (record { sold = inr (refl, within); withdrawn = inl refl; accounts = (refl, refl, refl) })
  sell-IsSafe (ok r) t o within (settled, rest, e, (withdrawn, rest', e', runs)) =
      rw (e, e') (withdrawal-IsSafe r settled withdrawn rest' o within runs)

  threshold-IsSafe :
      (t : List (Event Decimal)) (o : BankPaymentOutcome Decimal)
      → Runs (fail (threshold_text L w d) d.processed_at) t o
      → IsSafe t o
  unfolding fail
  threshold-IsSafe t o (_, rest, e, (e', eo)) =
      rw (e, e', eo)
        (record { sold = inl refl; withdrawn = inl refl; accounts = (refl, refl, refl) })

  -- Whatever the services answer, a run of the pipeline sells the deposit's amount at most once, and
  -- only within the limit. It orders at most one withdrawal, of exactly what the sale has paid and to
  -- the deposit's payment method. A deposit is recorded as initiated with the sale's proceeds and
  -- the accepted transfer, and without an alert; it is recorded as failed when no transfer was
  -- accepted, with one alert that carries the recorded text.
  pub liquidate_pipeline-IsSafe :
      (t : List (Event Decimal)) (o : BankPaymentOutcome Decimal)
      → Runs (liquidate_pipeline L w d) t o
      → IsSafe t o
  unfolding liquidate_pipeline
  liquidate_pipeline-IsSafe t o h = elim (Bool-cases (lt w.max_auto_amount d.usdc_amount)) [
    | inl over ↦ threshold-IsSafe t o (rw (over, liquidate_pipeline) at h)
    | inr within ↦
        let (sold, rest, e, runs) = rw (within, liquidate_pipeline) at h in
        rw e (sell-IsSafe sold rest o within runs)
  ]
