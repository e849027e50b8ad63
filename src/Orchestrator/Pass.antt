-- ===== src/Orchestrator/Pass.antt =====
-- orchestrator.rs: the deposit check pass over all chains, and how its results are merged.
pub mod Merge
pub mod Twice
pub mod Accounted
pub mod WellFormed
pub mod Detected
pub mod Errors
pub mod Monotone
pub mod Order
use mathlib.Core.List.{foldl}
use cryptosweep.Base.{
  String, ℕ, Bool, Option, none, some, List, [], ◌∷◌, ◌++◌, map, flatten, string_eq,
}
use cryptosweep.Base.Dict
use cryptosweep.Base.Dict.{Dict}
use cryptosweep.Base.StringSet
use cryptosweep.Types.Chain.{Chain, chain_eq, chains}
use cryptosweep.Types.Decimal.{DecimalLib}
use cryptosweep.Types.State.{LastSeenBlock, PersistedState, EligibleDeposit, LiquidationResult}
use cryptosweep.Types.Traits.{BlockExplorer}
use cryptosweep.Config.{CryptoSweepConfig}
use cryptosweep.Orchestrator.ChainResult.{ChainResult, latest_seen_block}
use cryptosweep.Orchestrator.Scan.{Clock, ChainDepositCheck}
use cryptosweep.Orchestrator.Scan

-- The worker's clients are not part of this record: its results are an argument of `run`.
pub record DepositCheck (D : Type 0) : Type 0 where
  pub config : CryptoSweepConfig D
  pub state : PersistedState D
  pub explorers : Dict Chain (BlockExplorer D)
  pub send : EligibleDeposit D → Bool
  pub clock : Clock

abbrev pub check_of : {D : Type 0} → DepositCheck D → Chain → BlockExplorer D → ChainDepositCheck D
check_of p chain explorer = record {
  config = p.config;
  state = p.state;
  explorer = explorer;
  chain = chain;
  send = p.send;
  clock = p.clock;
}

-- A chain with its result and the deposits that its check has sent.
abbrev pub Found : Type 0 → Type 0
Found D = Chain × (ChainResult × List (EligibleDeposit D))

module _ (L : DecimalLib) (p : DepositCheck L.Decimal) where
  open L use {Decimal}

  abbrev pub found_by : Chain → Option (BlockExplorer Decimal) → List (Found Decimal)
  found_by chain none = []
  found_by chain (some explorer) = (chain, Scan.run L (check_of p chain explorer)) ∷ []

  -- The checks of the chains that have an explorer.
  unfoldable pub discover : List Chain → List (Found Decimal)
  discover [] = []
  discover (chain ∷ rest) = found_by chain (Dict.get chain p.explorers) ++ discover rest

  abbrev pub chain_results : List (Found Decimal)
  chain_results = discover chains

  -- What stands in the channel, by chain and address. The checks run side by side, so the worker
  -- may receive these deposits in any order.
  abbrev pub sent_deposits : List (EligibleDeposit Decimal)
  sent_deposits = flatten (map (λ f. f.1.1) chain_results)

module _ (clock : Clock) where
  abbrev pub record_frontier :
      Chain → Option ℕ → Dict Chain LastSeenBlock → Dict Chain LastSeenBlock
  record_frontier chain none seen = seen
  record_frontier chain (some block) seen =
      Dict.insert chain (record { block_number = block; updated_at = clock.merged_at chain }) seen

  -- The loop over the chain results. Its state also holds the errors.
  unfoldable pub merge_chain :
      {D : Type 0} → PersistedState D × List String → Found D → PersistedState D × List String
  merge_chain (state, errors) (chain, (result, _)) = (
    record state {
      processed_tx_hashes =
          StringSet.insert_all result.processed_tx_hashes state.processed_tx_hashes;
      last_seen_block = record_frontier chain (latest_seen_block result) state.last_seen_block;
    },
    errors ++ result.errors,
  )

-- The loop over the worker's results.
unfoldable pub merge_liquidation :
    {D : Type 0} → PersistedState D → LiquidationResult D → PersistedState D
merge_liquidation state l = record state {
  bank_payments = Dict.insert l.payment.id l.payment state.bank_payments;
  processed_tx_hashes = StringSet.insert l.tx_hash state.processed_tx_hashes;
}

-- `DepositCheck::run`, for the results that the worker has returned: the errors, and the new state.
unfoldable pub run :
    (L : DecimalLib)
    → DepositCheck L.Decimal
    → List (LiquidationResult L.Decimal)
    → List String × PersistedState L.Decimal
unfolding merge_chain merge_liquidation discover
run L p liquidation_results =
    let (state, errors) = foldl (merge_chain p.clock) (p.state, []) (chain_results L p) in
    (errors, foldl merge_liquidation state liquidation_results)
