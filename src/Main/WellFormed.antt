-- ===== src/Main/WellFormed.antt =====
-- main.rs: a run keeps what holds of every state.
use cryptosweep.Base.{◌≡◌, sym, ap, ◌∙◌, subst, String, ℕ, List, false, In, All-at, string_eq}
use cryptosweep.Base.StringSet.{contains}
use cryptosweep.Types.Decimal.{DecimalLib}
use cryptosweep.Types.State.{PersistedState, EligibleDeposit, LiquidationResult, make_id}
use cryptosweep.Config.{CryptoSweepConfig}
use cryptosweep.Orchestrator.Pass.{sent_deposits}
use cryptosweep.Orchestrator.Pass.Twice.{sent-IsNew}
use cryptosweep.Orchestrator.Pass.WellFormed.{IsWellFormed, AreFresh, run-IsWellFormed}
use cryptosweep.Persistence.Prune.WellFormed.{prune-IsWellFormed}
use cryptosweep.Orchestrator.Pass
use cryptosweep.Main.{World, pass_of, next_state}
use cryptosweep.Worker.Liquidate.{CbWorker}
use cryptosweep.Worker.Pool.{Pool, initial, Reach, IsFinished}
use cryptosweep.Worker.Pool.Conservation.{IsGenuine, IsOneOf, liquidate_one-Runs, run_conserves}

module _ (L : DecimalLib) (worker : CbWorker L.Decimal) (format_date : ℕ → String)
    (deposits : List (EligibleDeposit L.Decimal)) where
  open L use {Decimal}

  -- The result of a job is the record of one of the deposits.
  IsOfDeposit : LiquidationResult Decimal → Type 0
  IsOfDeposit l =
      (d : EligibleDeposit Decimal) × In d deposits
      × (l.tx_hash ≡ d.tx_hash)
      × ((l.payment).deposit_tx_hash ≡ d.tx_hash)
      × (l.payment.id ≡ make_id format_date d.processed_at d.tx_hash)

  genuine-IsOfDeposit :
      (l : LiquidationResult Decimal)
      → IsGenuine L worker format_date (IsOneOf L worker format_date deposits) l
      → IsOfDeposit l
  unfolding IsOfDeposit
  genuine-IsOfDeposit l (d, t, member, runs) =
      let (o, _, same) = liquidate_one-Runs L worker format_date d t l runs in
      (
        d,
        member,
        ap (λ (x : LiquidationResult Decimal). x.tx_hash) same,
        ap (λ (x : LiquidationResult Decimal). (x.payment).deposit_tx_hash) same,
        ap (λ (x : LiquidationResult Decimal). x.payment.id) same,
      )

  results-AreFresh :
      (s : PersistedState Decimal) (ls : List (LiquidationResult Decimal))
      → ((l : LiquidationResult Decimal) → In l ls → IsOfDeposit l)
      → ((d : EligibleDeposit Decimal)
          → In d deposits
          → contains s.processed_tx_hashes d.tx_hash ≡ false)
      → ((d d' : EligibleDeposit Decimal)
          → In d deposits
          → In d' deposits
          → d.tx_hash ≡ d'.tx_hash
          → d ≡ d')
      → AreFresh s ls
  unfolding IsOfDeposit
  results-AreFresh s ls of new distinct = record {
    matching = λ l i. let (d, _, hash, hash', _) = of l i in hash' ∙ sym hash;
    fresh = λ l i.
        let (d, member, hash, _, _) = of l i in
        ap (contains s.processed_tx_hashes) hash ∙ new d member;
    same_id = λ l m i j same.
        let (d, member, hash, _, id) = of l i in
        let (d', member', hash', _, id') = of m j in
        let one = distinct d d' member member' (sym hash ∙ same ∙ hash') in
        id
        ∙ ap (λ (x : EligibleDeposit Decimal). make_id format_date x.processed_at x.tx_hash) one
        ∙ sym id';
  }

  module _ (config : CryptoSweepConfig Decimal) (w : World Decimal) (pool : Pool Decimal) where
    -- A run whose worker has processed what the pass has sent keeps the state well-formed: no id
    -- has two records, each record stands under its own id, the deposit of each record is
    -- processed, and no two records are of one deposit. So pruning an old record never makes a
    -- deposit with a younger one unprocessed. The deposits of the pass have different hashes.
    pub next_state-IsWellFormed :
        (state : PersistedState Decimal)
        → IsWellFormed state
        → ((x : EligibleDeposit Decimal)
            → In x deposits
            → In x (sent_deposits L (pass_of L config w state)))
        → ((d d' : EligibleDeposit Decimal)
            → In d deposits
            → In d' deposits
            → d.tx_hash ≡ d'.tx_hash
            → d ≡ d')
        → Reach L worker format_date (initial deposits) pool
        → IsFinished L worker format_date pool
        → w.liquidations ≡ pool.results
        → IsWellFormed (next_state L config w state)
    next_state-IsWellFormed state before arrive distinct reach finished returned =
        let (_, genuine) = run_conserves L worker format_date deposits pool reach finished in
        let gen = All-at (IsGenuine L worker format_date (IsOneOf L worker format_date deposits)) in
        let fresh =
          results-AreFresh state pool.results
            (λ l i. genuine-IsOfDeposit l (gen l pool.results genuine i))
            (λ d i. (sent-IsNew L (pass_of L config w state) d (arrive d i)).0) distinct in
        prune-IsWellFormed w.pruned_at (Pass.run L (pass_of L config w state) w.liquidations).1 (
          run-IsWellFormed L (pass_of L config w state) w.liquidations before
            (subst (AreFresh state) (sym returned) fresh))
