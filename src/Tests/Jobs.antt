-- ===== src/Tests/Jobs.antt =====
-- cbworker.rs: a deposit that is sold and withdrawn, and a pool that processes it.
use cryptosweep.Base.{◌≡◌, refl, String, ℕ, ◌*◌, ◌≤◌, List, [], ◌∷◌, length, arith, All}
use cryptosweep.Base.StringSet.{count}
use cryptosweep.Types.Error.{ok}
use cryptosweep.Types.State.{BankPaymentOutcome, initiated, LiquidationResult}
use cryptosweep.Worker.Job.{Event, Runs, sell_usdc, sleep, withdraw_usd}
use cryptosweep.Worker.Liquidate.{liquidate_pipeline, liquidate_one, record_of}
use cryptosweep.Worker.Safety.{IsSafe, liquidate_pipeline-IsSafe}
use cryptosweep.Worker.Pool.{Pool, initial, start, respond, collect, Reach, here, next, IsFinished}
use cryptosweep.Worker.Pool.Conservation.{
  result_hashes, deposit_hashes, IsGenuine, IsOneOf, run_conserves,
}
use cryptosweep.Worker.Pool.Progress.{steps, steps_per_deposit, steps-le}
use cryptosweep.Tests.Fixtures.{micro, now, deposit, worker, sold, withdrawal, format_date}

abbrev trace : List (Event ℕ)
trace =
    (sell_usdc (5 * 1000000), ok sold)
    ∷ (sleep 30, tt)
    ∷ (withdraw_usd 4990000 "bank", ok withdrawal)
    ∷ []

abbrev outcome : BankPaymentOutcome ℕ
outcome = initiated "o1" 4990000 "w1" now

sells_and_withdraws : Runs (liquidate_pipeline micro worker deposit) trace outcome
unfolding liquidate_pipeline
sells_and_withdraws = (ok sold, _, refl, (tt, _, refl, (ok withdrawal, _, refl, (refl, refl))))

liquidate_pipeline-IsSafe_example : IsSafe micro worker deposit trace outcome
liquidate_pipeline-IsSafe_example =
    liquidate_pipeline-IsSafe micro worker deposit trace outcome sells_and_withdraws

abbrev result : LiquidationResult ℕ
result = record_of micro worker format_date deposit outcome

abbrev pub finished : Pool ℕ
finished = record { waiting = []; running = []; results = result ∷ [] }

pub finished-IsFinished : IsFinished micro worker format_date finished
finished-IsFinished = record { drained = refl; idle = refl }

pub processed : Reach micro worker format_date (initial (deposit ∷ [])) finished
unfolding liquidate_one liquidate_pipeline
processed =
    next
      (next
        (next
          (next (next here (start deposit [] refl (omega arith)))
            (respond [] [] deposit (sell_usdc (5 * 1000000)) _ (ok sold) refl))
          (respond [] [] deposit (sleep 30) _ tt refl))
        (respond [] [] deposit (withdraw_usd 4990000 "bank") _ (ok withdrawal) refl))
      (collect [] [] deposit result refl)

run_conserves_example :
    ((h : String)
      → count h (result_hashes finished.results) ≡ count h (deposit_hashes (deposit ∷ [])))
    × All
        (IsGenuine micro worker format_date (IsOneOf micro worker format_date (deposit ∷ [])))
        finished.results
run_conserves_example =
    run_conserves micro worker format_date (deposit ∷ []) finished processed finished-IsFinished

steps-le_example :
    steps micro worker format_date processed ≤ steps_per_deposit * length (deposit ∷ [])
steps-le_example = steps-le micro worker format_date (deposit ∷ []) finished processed
