-- ===== src/Tests/Live.antt =====
-- cbworker.rs with coinbase/, and the pass with its worker, on concrete answers.
use cryptosweep.Base.{refl, String, ℕ, ◌*◌, ◌≤◌, List, [], ◌∷◌, ◌++◌, length}
use cryptosweep.Types.Error.{ok}
use cryptosweep.Types.State.{BankPaymentOutcome, initiated}
use cryptosweep.Coinbase.Task.{Exchange, exchanges}
use cryptosweep.Worker.Job.{Event, Runs, sell_usdc, sleep, withdraw_usd}
use cryptosweep.Worker.Liquidate.{liquidate_pipeline}
use cryptosweep.Worker.Live.{AnswersAll, PipelineRun, liquidate_pipeline-PipelineRun}
use cryptosweep.Worker.Live.Requests.{requests-le}
use cryptosweep.Orchestrator.Pass.Accounted.{IsAccounted, run-IsAccounted}
use cryptosweep.Tests.Encoding.{jwt}
use cryptosweep.Tests.Exchange.{
  prices, api, client, sale_trace, sold_here, sale-Runs, withdrawal_trace, withdrawn_here,
  withdrawal-Runs,
}
use cryptosweep.Tests.Fixtures.{micro, now, deposit, worker, format_date}
use cryptosweep.Tests.Jobs.{finished, finished-IsFinished, processed}
use cryptosweep.Tests.Pass.{first, first_sends, arrives}

abbrev job_trace : List (Event ℕ)
job_trace =
    (sell_usdc (5 * 1000000), ok sold_here)
    ∷ (sleep 30, tt)
    ∷ (withdraw_usd 4990000 "bank", ok withdrawn_here)
    ∷ []

abbrev outcome : BankPaymentOutcome ℕ
outcome = initiated "t1" 4990000 "w1" now

job-Runs : Runs (liquidate_pipeline prices worker deposit) job_trace outcome
unfolding liquidate_pipeline
job-Runs = (ok sold_here, _, refl, (tt, _, refl, (ok withdrawn_here, _, refl, (refl, refl))))

abbrev all_exchanges : List (Exchange String)
all_exchanges = exchanges sale_trace ++ exchanges withdrawal_trace

answered : AnswersAll prices jwt api client job_trace all_exchanges
answered = (
  exchanges sale_trace,
  exchanges withdrawal_trace,
  (sale_trace, sale-Runs, refl),
  (
    [],
    exchanges withdrawal_trace,
    refl,
    (exchanges withdrawal_trace, [], (withdrawal_trace, withdrawal-Runs, refl), refl, refl),
    refl,
  ),
  refl,
)

liquidate_pipeline-PipelineRun_example :
    PipelineRun prices jwt api client worker deposit all_exchanges outcome
liquidate_pipeline-PipelineRun_example =
    liquidate_pipeline-PipelineRun prices jwt api client worker deposit job_trace outcome
      all_exchanges job-Runs answered

requests-le_example : length all_exchanges ≤ 4
requests-le_example =
    requests-le prices jwt api client worker deposit job_trace outcome all_exchanges job-Runs
      answered

run-IsAccounted_example : IsAccounted micro first worker format_date (deposit ∷ []) finished "0xaa"
run-IsAccounted_example =
    run-IsAccounted micro first worker format_date (deposit ∷ []) finished deposit arrives processed
      finished-IsFinished first_sends
