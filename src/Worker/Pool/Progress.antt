-- ===== src/Worker/Pool/Progress.antt =====
-- cbworker.rs: the worker never gets stuck, and it ends.
use cryptosweep.Base.{
  ◌≡◌, refl, ap, ◌⊎◌, inl, inr, String, ℕ, suc, ◌+◌, ◌*◌, ◌≤◌, ◌<◌, List, [], ◌∷◌, ◌++◌, length,
  arith, subst, Bool-cases,
}
use cryptosweep.Types.Decimal.{DecimalLib}
use cryptosweep.Types.Error.{http, ok, err}
use cryptosweep.Types.State.{EligibleDeposit}
use cryptosweep.Worker.Job.{Call, Response, Job, done, call, sell_usdc, sleep, withdraw_usd, notify}
use cryptosweep.Worker.Liquidate.{CbWorker, liquidate_pipeline, liquidate_one}
use cryptosweep.Worker.Pool.{
  ResultJob, Pool, initial, Step, start, respond, collect, Reach, here, next, IsFinished,
}

-- Every call can be answered: with an error, if with nothing else.
some_response : {D : Type 0} (k : Call D) → Response k
some_response (sell_usdc amount) = err (http "")
some_response (sleep secs) = tt
some_response (withdraw_usd amount pm) = err (http "")
some_response (notify text) = err (http "")

-- The job makes at most `n` calls.
abbrev CallsAtMost : {D A : Type 0} → ℕ → Job D A → Type 0
CallsAtMost n (done a) = Unit
CallsAtMost n (call k f) = (m : ℕ) × (n ≡ suc m) × ((r : Response k) → CallsAtMost m (f r))

-- The steps that are left for the running jobs: one for each call, and one to collect each.
abbrev StepsLeft : {D : Type 0} → List (EligibleDeposit D × ResultJob D) → ℕ → Type 0
StepsLeft [] n = n ≡ 0
StepsLeft (j ∷ js) n = (m k : ℕ) × (n ≡ suc m + k) × CallsAtMost m j.1 × StepsLeft js k

StepsLeft-append :
    {D : Type 0} (before after : List (EligibleDeposit D × ResultJob D)) (m n : ℕ)
    → StepsLeft before m
    → StepsLeft after n
    → StepsLeft (before ++ after) (m + n)
StepsLeft-append [] after m n hb ha = subst (StepsLeft after) (omega arith) ha
StepsLeft-append (j ∷ before) after m n (c, k, e, calls, left) ha =
    (c, k + n, omega arith, calls, StepsLeft-append before after k n left ha)

-- A job in the middle has its share of the steps, and the rest is the others'.
StepsLeft-middle :
    {D : Type 0} (before after : List (EligibleDeposit D × ResultJob D))
    (j : EligibleDeposit D × ResultJob D) (n : ℕ)
    → StepsLeft (before ++ (j ∷ after)) n
    → (m b : ℕ) × (n ≡ suc m + b)
      × CallsAtMost m j.1
      × StepsLeft (before ++ after) b
      × ((j' : EligibleDeposit D × ResultJob D) (m' : ℕ)
          → CallsAtMost m' j'.1
          → StepsLeft (before ++ (j' ∷ after)) (suc m' + b))
StepsLeft-middle [] after j n (m, b, e, calls, left) =
    (m, b, e, calls, left, λ j' m' calls'. (m', b, refl, calls', left))
StepsLeft-middle (i ∷ before) after j n (c, k, e, calls_i, left_i) =
    let (m, b, e', calls, left, put) = StepsLeft-middle before after j k left_i in
    (
      m,
      suc c + b,
      omega arith,
      calls,
      (c, b, refl, calls_i, left),
      λ j' m' calls'. (c, suc m' + b, omega arith, calls_i, put j' m' calls'),
    )

abbrev pub steps_per_deposit : ℕ
steps_per_deposit = 6

module _ (L : DecimalLib) (w : CbWorker L.Decimal) (format_date : ℕ → String) where
  open L use {Decimal, lt}

  liquidate_one-CallsAtMost :
      (d : EligibleDeposit Decimal) → CallsAtMost 4 (liquidate_one L w format_date d)
  unfolding liquidate_one liquidate_pipeline
  liquidate_one-CallsAtMost d = elim (Bool-cases (lt w.max_auto_amount d.usdc_amount)) [
    | inl over ↦ rw over (3, omega arith, λ r. tt)
    | inr within ↦ rw within (
      3,
      omega arith,
      elim [
        | err e ↦ (2, omega arith, λ r. tt)
        | ok sold ↦ (
          2,
          omega arith,
          λ settled.
              (1, omega arith, elim [ err e ↦ (0, omega arith, λ r. tt) | ok withdrawn ↦ tt ]),
        )
      ],
    )
  ]

  -- A bound on the steps that a pool can still take.
  abbrev HasBudget : Pool Decimal → ℕ → Type 0
  HasBudget p n = (k : ℕ) × (n ≡ steps_per_deposit * length p.waiting + k) × StepsLeft p.running k

  step-HasBudget :
      (p q : Pool Decimal) (n : ℕ)
      → Step L w format_date p q
      → HasBudget p n
      → (m : ℕ) × (m < n) × HasBudget q m
  step-HasBudget p q n (start d rest e room) (k, en, left) = (
    steps_per_deposit * length rest + (k + 5),
    omega (arith, ap length e),
    (
      k + 5,
      refl,
      StepsLeft-append p.running ((d, liquidate_one L w format_date d) ∷ []) k 5 left
          (4, 0, omega arith, liquidate_one-CallsAtMost d, refl),
    ),
  )
  step-HasBudget p q n (respond before after d c f r e) (k, en, left) =
      let (m, b, e', (m', em, calls), _, put) =
        StepsLeft-middle before after (d, call c f) k (subst (λ x. StepsLeft x k) e left) in
      (
        steps_per_deposit * length p.waiting + (suc m' + b),
        omega arith,
        (suc m' + b, refl, put (d, f r) m' (calls r)),
      )
  step-HasBudget p q n (collect before after d r e) (k, en, left) =
      let (m, b, e', _, rest, _) =
        StepsLeft-middle before after (d, done r) k (subst (λ x. StepsLeft x k) e left) in
      (steps_per_deposit * length p.waiting + b, omega arith, (b, refl, rest))

  abbrev pub steps : {p q : Pool Decimal} → Reach L w format_date p q → ℕ
  steps here = 0
  steps (next r st) = suc (steps r)

  reach-HasBudget :
      (p q : Pool Decimal) (n : ℕ) (r : Reach L w format_date p q)
      → HasBudget p n
      → (m : ℕ) × (m + steps r ≤ n) × HasBudget q m
  reach-HasBudget p q n here h = (n, omega arith, h)
  reach-HasBudget p q n (next {q = s} r st) h =
      let (m, le, hs) = reach-HasBudget p s n r h in
      let (m', lt', hq) = step-HasBudget s q m st hs in (m', omega arith, hq)

  -- The worker ends: however the jobs interleave, it takes at most six steps for each deposit.
  pub steps-le :
      (deposits : List (EligibleDeposit Decimal)) (p : Pool Decimal)
      (r : Reach L w format_date (initial deposits) p)
      → steps r ≤ steps_per_deposit * length deposits
  steps-le deposits p r =
      let (m, le, _) =
        reach-HasBudget (initial deposits) p (steps_per_deposit * length deposits) r
          (0, omega arith, refl) in
      omega arith

  -- The worker never waits for nothing: a pool that is not finished can take a step.
  pub progress :
      (p : Pool Decimal)
      → IsFinished L w format_date p ⊎ ((q : Pool Decimal) × Step L w format_date p q)
  progress p = go p.waiting p.running refl refl
    where
      go :
          (ws : List (EligibleDeposit Decimal))
          (js : List (EligibleDeposit Decimal × ResultJob Decimal))
          → p.waiting ≡ ws
          → p.running ≡ js
          → IsFinished L w format_date p ⊎ ((q : Pool Decimal) × Step L w format_date p q)
      go ws ((d, done r) ∷ js) ew ej = inr (_, collect [] js d r ej)
      go ws ((d, call k f) ∷ js) ew ej = inr (_, respond [] js d k f (some_response k) ej)
      go [] [] ew ej = inl (record { drained = ew; idle = ej })
      go (d ∷ rest) [] ew ej = inr (_, start d rest ew (omega (arith, ap length ej)))
