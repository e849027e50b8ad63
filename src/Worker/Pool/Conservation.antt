-- ===== src/Worker/Pool/Conservation.antt =====
-- cbworker.rs: no deposit is lost, invented or processed twice, in whatever order jobs proceed.
use mathlib.Core.List.{map-append, append_assoc}
use cryptosweep.Base.{
  ◌≡◌, refl, ap, ◌∙◌, String, ℕ, ◌+◌, ◌≤◌, List, [], ◌∷◌, ◌++◌, map, length, length-append, arith,
  All, All-append, All-split, All-In, In, subst,
}
use cryptosweep.Base.StringSet.{count, count-append}
use cryptosweep.Types.Decimal.{DecimalLib}
use cryptosweep.Types.State.{EligibleDeposit, LiquidationResult, BankPaymentOutcome}
use cryptosweep.Worker.Job.{Job, done, call, Event, Runs, ◌>>=◌}
use cryptosweep.Worker.Liquidate.{CbWorker, liquidate_pipeline, liquidate_one, record_of}
use cryptosweep.Worker.Pool.{
  max_concurrent_jobs, ResultJob, Pool, initial, Step, start, respond, collect, Reach, here, next,
  IsFinished,
}

abbrev pub deposit_hashes : {D : Type 0} → List (EligibleDeposit D) → List String
deposit_hashes = map (λ d. d.tx_hash)

abbrev running_hashes : {D : Type 0} → List (EligibleDeposit D × ResultJob D) → List String
running_hashes = map (λ j. j.0.tx_hash)

abbrev pub result_hashes : {D : Type 0} → List (LiquidationResult D) → List String
result_hashes = map (λ r. r.tx_hash)

module _ (L : DecimalLib) (w : CbWorker L.Decimal) (format_date : ℕ → String) where
  open L use {Decimal}

  bind-Runs :
      (d : EligibleDeposit Decimal) (m : Job Decimal (BankPaymentOutcome Decimal))
      (t : List (Event Decimal)) (r : LiquidationResult Decimal)
      → Runs (m >>= (λ o. done (record_of L w format_date d o))) t r
      → (o : BankPaymentOutcome Decimal) × Runs m t o × (r ≡ record_of L w format_date d o)
  bind-Runs d (done o) t r (e, er) = (o, (e, refl), er)
  bind-Runs d (call k f) t r (resp, rest, e, runs) =
      let (o, runs', er) = bind-Runs d (f resp) rest r runs in (o, (resp, rest, e, runs'), er)

  -- A result is the audit record of its deposit, with the outcome of a run of the pipeline.
  pub liquidate_one-Runs :
      (d : EligibleDeposit Decimal) (t : List (Event Decimal)) (r : LiquidationResult Decimal)
      → Runs (liquidate_one L w format_date d) t r
      → (o : BankPaymentOutcome Decimal) × Runs (liquidate_pipeline L w d) t o
        × (r ≡ record_of L w format_date d o)
  unfolding liquidate_one
  liquidate_one-Runs d t r runs = bind-Runs d (liquidate_pipeline L w d) t r runs

-- `P` is a property of all deposits that arrive.
module _ (L : DecimalLib) (w : CbWorker L.Decimal) (format_date : ℕ → String)
    (P : EligibleDeposit L.Decimal → Type 0) where
  open L use {Decimal}

  -- A result that some run of a job returns, for a deposit that has arrived.
  abbrev pub IsGenuine : LiquidationResult Decimal → Type 0
  IsGenuine r =
      (d : EligibleDeposit Decimal) × (t : List (Event Decimal)) × P d
      × Runs (liquidate_one L w format_date d) t r

  -- What is left of a job: with the calls made so far in front, its runs are those of the whole job.
  abbrev IsResidual : EligibleDeposit Decimal × ResultJob Decimal → Type 0
  IsResidual (d, j) =
      (made : List (Event Decimal)) × ((t : List (Event Decimal)) (r : LiquidationResult Decimal)
        → Runs j t r
        → Runs (liquidate_one L w format_date d) (made ++ t) r)

  pub record IsBalanced (deposits : List (EligibleDeposit Decimal)) (p : Pool Decimal)
      : Type 0 where
    -- every hash stands as often among what waits, runs and is done as among the deposits
    pub balance :
        (h : String)
        → count h (result_hashes p.results)
            + count h (running_hashes p.running)
            + count h (deposit_hashes p.waiting)
          ≡ count h (deposit_hashes deposits)
    pub bounded : length p.running ≤ max_concurrent_jobs
    pub waiting_P : All P p.waiting
    pub running_P : All (λ j. P j.0 × IsResidual j) p.running
    pub genuine : All IsGenuine p.results

  initial-IsBalanced :
      (deposits : List (EligibleDeposit Decimal))
      → All P deposits
      → IsBalanced deposits (initial deposits)
  unfolding count
  initial-IsBalanced deposits all = record {
    balance = λ h. omega arith;
    bounded = omega arith;
    waiting_P = all;
    running_P = tt;
    genuine = tt;
  }

  count-cons : (h x : String) (xs : List String) → count h (x ∷ xs) ≡ count h (x ∷ []) + count h xs
  count-cons h x xs = count-append h (x ∷ []) xs

  count-running :
      (h : String) (xs ys : List (EligibleDeposit Decimal × ResultJob Decimal))
      → count h (running_hashes (xs ++ ys))
        ≡ count h (running_hashes xs) + count h (running_hashes ys)
  count-running h xs ys =
      ap (count h) (map-append (λ j. j.0.tx_hash) xs ys)
      ∙ count-append h (running_hashes xs) (running_hashes ys)

  count-results :
      (h : String) (rs : List (LiquidationResult Decimal)) (r : LiquidationResult Decimal)
      → count h (result_hashes (rs ++ (r ∷ [])))
        ≡ count h (result_hashes rs) + count h (r.tx_hash ∷ [])
  count-results h rs r =
      ap (count h) (map-append (λ x. x.tx_hash) rs (r ∷ []))
      ∙ count-append h (result_hashes rs) (r.tx_hash ∷ [])

  -- Taking a job out of the middle takes its hash out once.
  count-middle :
      (h : String) (before after : List (EligibleDeposit Decimal × ResultJob Decimal))
      (j : EligibleDeposit Decimal × ResultJob Decimal)
      → count h (running_hashes (before ++ (j ∷ after)))
        ≡ count h (running_hashes (before ++ after)) + count h (j.0.tx_hash ∷ [])
  count-middle h before after j = omega (
    arith,
    count-running h before (j ∷ after),
    count-running h before after,
    count-cons h j.0.tx_hash (running_hashes after),
  )

  length-middle :
      (before after : List (EligibleDeposit Decimal × ResultJob Decimal))
      (j : EligibleDeposit Decimal × ResultJob Decimal)
      → length (before ++ (j ∷ after)) ≡ length (before ++ after) + 1
  length-middle [] after j = omega arith
  length-middle (b ∷ before) after j = omega (arith, length-middle before after j)

  residual-hash :
      (d : EligibleDeposit Decimal) (r : LiquidationResult Decimal)
      → IsResidual (d, done r)
      → r.tx_hash ≡ d.tx_hash
  residual-hash d r (made, runs) =
      let (o, _, same) =
        liquidate_one-Runs L w format_date d (made ++ []) r (runs [] r (refl, refl)) in
      ap (λ x. x.tx_hash) same

  step-IsBalanced :
      (deposits : List (EligibleDeposit Decimal)) (p q : Pool Decimal)
      → Step L w format_date p q
      → IsBalanced deposits p
      → IsBalanced deposits q
  step-IsBalanced deposits p q (start d rest e room) v =
      let (pd, prest) = subst (All P) e v.waiting_P in
      record {
        balance = λ h. omega (
          arith,
          v.balance h,
          count-running h p.running ((d, liquidate_one L w format_date d) ∷ []),
          ap (λ x. count h (deposit_hashes x)) e,
          count-cons h d.tx_hash (deposit_hashes rest),
        );
        bounded =
            omega (arith, length-append p.running ((d, liquidate_one L w format_date d) ∷ []));
        waiting_P = prest;
        running_P =
            All-append (λ j. P j.0 × IsResidual j) p.running
              ((d, liquidate_one L w format_date d) ∷ []) v.running_P
              ((pd, ([], λ t r runs. runs)), tt);
        genuine = v.genuine;
      }
  step-IsBalanced deposits p q (respond before after d k f r e) v =
      let (hb, ((pd, (made, residual)), ha)) =
        All-split (λ j. P j.0 × IsResidual j) before (d, call k f) after
          (subst (All (λ j. P j.0 × IsResidual j)) e v.running_P) in
      record {
        balance = λ h. omega (
          arith,
          v.balance h,
          ap (λ x. count h (running_hashes x)) e,
          count-middle h before after (d, call k f),
          count-middle h before after (d, f r),
        );
        bounded = omega (
          arith,
          v.bounded,
          ap length e,
          length-middle before after (d, call k f),
          length-middle before after (d, f r),
        );
        waiting_P = v.waiting_P;
        running_P =
            All-append (λ j. P j.0 × IsResidual j) before ((d, f r) ∷ after) hb
              (
                (
                  pd,
                  (
                    made ++ ((k, r) ∷ []),
                    λ t s runs. rw append_assoc (residual ((k, r) ∷ t) s (r, t, refl, runs)),
                  ),
                ),
                ha,
              );
        genuine = v.genuine;
      }
  step-IsBalanced deposits p q (collect before after d r e) v =
      let (hb, ((pd, residual), ha)) =
        All-split (λ j. P j.0 × IsResidual j) before (d, done r) after
          (subst (All (λ j. P j.0 × IsResidual j)) e v.running_P) in
      record {
        balance = λ h. omega (
          arith,
          v.balance h,
          ap (λ x. count h (running_hashes x)) e,
          count-middle h before after (d, done r),
          count-results h p.results r,
          ap (λ x. count h (x ∷ [])) (residual-hash d r residual),
        );
        bounded = omega (arith, v.bounded, ap length e, length-middle before after (d, done r));
        waiting_P = v.waiting_P;
        running_P = All-append (λ j. P j.0 × IsResidual j) before after hb ha;
        genuine =
            All-append IsGenuine p.results (r ∷ []) v.genuine
              ((d, residual.0 ++ [], pd, residual.1 [] r (refl, refl)), tt);
      }

  pub reach-IsBalanced :
      (deposits : List (EligibleDeposit Decimal)) (p q : Pool Decimal)
      → Reach L w format_date p q
      → IsBalanced deposits p
      → IsBalanced deposits q
  reach-IsBalanced deposits p q here v = v
  reach-IsBalanced deposits p q (next {q = m} r st) v =
      step-IsBalanced deposits m q st (reach-IsBalanced deposits p m r v)

module _ (L : DecimalLib) (w : CbWorker L.Decimal) (format_date : ℕ → String) where
  open L use {Decimal}

  -- The deposits that arrive, as a property of each.
  abbrev pub IsOneOf : List (EligibleDeposit Decimal) → EligibleDeposit Decimal → Type 0
  IsOneOf deposits d = In d deposits

  All-IsOneOf : (deposits : List (EligibleDeposit Decimal)) → All (IsOneOf deposits) deposits
  All-IsOneOf deposits = All-In deposits

  -- However the jobs interleave and whatever the services answer, when the worker returns every hash
  -- stands as often among its results as among the deposits that arrived, and every result is
  -- what a run of a job returns for one of these deposits.
  pub run_conserves :
      (deposits : List (EligibleDeposit Decimal)) (p : Pool Decimal)
      → Reach L w format_date (initial deposits) p
      → IsFinished L w format_date p
      → ((h : String) → count h (result_hashes p.results) ≡ count h (deposit_hashes deposits))
        × All (IsGenuine L w format_date (IsOneOf deposits)) p.results
  unfolding count
  run_conserves deposits p r f =
      let v =
        reach-IsBalanced L w format_date (IsOneOf deposits) deposits (initial deposits) p r
          (initial-IsBalanced L w format_date (IsOneOf deposits) deposits (All-IsOneOf deposits)) in
      (
        λ h. omega (
          arith,
          v.balance h,
          ap (λ x. count h (running_hashes x)) f.idle,
          ap (λ x. count h (deposit_hashes x)) f.drained,
        ),
        v.genuine,
      )
