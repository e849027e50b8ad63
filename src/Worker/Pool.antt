-- ===== src/Worker/Pool.antt =====
-- cbworker.rs: `CbWorker::run`. Deposits arrive on the channel and at most `MAX_CONCURRENT_JOBS`
-- of them are processed side by side, as `buffer_unordered` documents: a job is started when there
-- is room, any job that waits for a response may be given one, and any job that has ended is
-- collected. The order is the environment's.
pub mod Conservation
pub mod Progress
use cryptosweep.Base.{◌≡◌, String, ℕ, ◌<◌, List, [], ◌∷◌, ◌++◌, length}
use cryptosweep.Types.Decimal.{DecimalLib}
use cryptosweep.Types.State.{EligibleDeposit, LiquidationResult}
use cryptosweep.Worker.Job.{Call, Response, Job, done, call}
use cryptosweep.Worker.Liquidate.{CbWorker, liquidate_one}

abbrev pub max_concurrent_jobs : ℕ
max_concurrent_jobs = 5

abbrev pub ResultJob : Type 0 → Type 0
ResultJob D = Job D (LiquidationResult D)

pub record Pool (D : Type 0) : Type 0 where
  pub waiting : List (EligibleDeposit D)
  pub running : List (EligibleDeposit D × ResultJob D)
  pub results : List (LiquidationResult D)

abbrev pub initial : {D : Type 0} → List (EligibleDeposit D) → Pool D
initial deposits = record { waiting = deposits; running = []; results = [] }

module _ (L : DecimalLib) (w : CbWorker L.Decimal) (format_date : ℕ → String) where
  open L use {Decimal}

  pub data Step (p : Pool Decimal) : Pool Decimal → Type 0 where
    start :
        (d : EligibleDeposit Decimal) (rest : List (EligibleDeposit Decimal))
        → p.waiting ≡ d ∷ rest
        → length p.running < max_concurrent_jobs
        → Step p (record {
          waiting = rest;
          running = p.running ++ ((d, liquidate_one L w format_date d) ∷ []);
          results = p.results;
        })
    respond :
        (before after : List (EligibleDeposit Decimal × ResultJob Decimal))
        (d : EligibleDeposit Decimal) (k : Call Decimal) (next : Response k → ResultJob Decimal)
        (r : Response k)
        → p.running ≡ before ++ ((d, call k next) ∷ after)
        → Step p (record {
          waiting = p.waiting;
          running = before ++ ((d, next r) ∷ after);
          results = p.results;
        })
    collect :
        (before after : List (EligibleDeposit Decimal × ResultJob Decimal))
        (d : EligibleDeposit Decimal) (r : LiquidationResult Decimal)
        → p.running ≡ before ++ ((d, done r) ∷ after)
        → Step p (record {
          waiting = p.waiting;
          running = before ++ after;
          results = p.results ++ (r ∷ []);
        })

  pub data Reach (p : Pool Decimal) : Pool Decimal → Type 0 where
    here : Reach p p
    next : {q r : Pool Decimal} → Reach p q → Step q r → Reach p r

  -- The channel is drained and no job is in flight: `run` returns.
  pub record IsFinished (p : Pool Decimal) : Type 0 where
    pub drained : p.waiting ≡ []
    pub idle : p.running ≡ []
