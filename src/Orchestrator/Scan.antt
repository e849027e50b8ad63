-- ===== src/Orchestrator/Scan.antt =====
-- orchestrator.rs: the check of one chain, and the scans of its deposit addresses.
pub mod Eligible
pub mod Address
pub mod Frontier
pub mod Run
pub mod Errors
pub mod Fresh
pub mod Detected
pub mod Monotone
use cryptosweep.Base.{
  String, ◌<>◌, ℕ, ◌-◌, ◌*◌, ◌^◌, min, Bool, true, false, ◌||◌, Option, none, some,
}
use cryptosweep.Base.{List, [], ◌∷◌, ◌++◌, map, flatten, ltb, if◌then◌else◌}
use cryptosweep.Base.Dict
use cryptosweep.Base.StringSet
use cryptosweep.Base.StringSet.{StringSet}
use cryptosweep.Types.Address.{DepositAddressConfig}
use cryptosweep.Types.Chain.{Chain, chain_eq, chain_name}
use cryptosweep.Types.Decimal.{DecimalLib}
use cryptosweep.Types.Error.{message, ok, err}
use cryptosweep.Types.State.{LastSeenBlock, PersistedState, EligibleDeposit, UsdcReceive}
use cryptosweep.Types.Traits.{BlockExplorer}
use cryptosweep.Config.{CryptoSweepConfig, confirmation_blocks_for, start_block_for}
use cryptosweep.Orchestrator.ChainResult.{ChainResult, empty, sum}

-- Six hours, in nanoseconds.
abbrev pub stale_threshold : ℕ
stale_threshold = 6 * 3600 * 10 ^ 9

-- What the clock shows: at a chain's tests for staleness, when the query for its height has failed
-- or that for the receives of an address, at the sending of a deposit (by its chain, address and
-- hash) and at the update of a chain's frontier.
pub record Clock : Type 0 where
  pub stale_at : Chain → Option String → ℕ
  pub sent_at : Chain → String → String → ℕ
  pub merged_at : Chain → ℕ

-- `send` tells whether the channel accepts a deposit.
pub record ChainDepositCheck (D : Type 0) : Type 0 where
  pub config : CryptoSweepConfig D
  pub state : PersistedState D
  pub explorer : BlockExplorer D
  pub chain : Chain
  pub send : EligibleDeposit D → Bool
  pub clock : Clock

module _ {D : Type 0} (c : ChainDepositCheck D) where
  unfoldable pub is_chain_stale : Option String → Bool
  is_chain_stale failed = elim (Dict.get c.chain (c.state).last_seen_block) [
    | some lsb ↦ ltb stale_threshold ((c.clock).stale_at c.chain failed - lsb.updated_at)
    | none ↦ true
  ]

  unfoldable pub required_confirmations : ℕ
  required_confirmations = confirmation_blocks_for c.config c.chain

-- A result that has no frontier, and the given errors.
abbrev pub failed_result : List String → ChainResult
failed_result errors = record {
  processed_tx_hashes = [];
  confirmed_frontier = none;
  errors = errors;
}

-- What a scan has sent so far: `result.processed_tx_hashes`, `scan_dedup` and the deposits that
-- stand in the channel.
pub record Sent (D : Type 0) : Type 0 where
  pub hashes : List String
  pub scan_dedup : StringSet
  pub channel : List (EligibleDeposit D)

abbrev pub nothing_sent : {D : Type 0} → Sent D
nothing_sent = record { hashes = []; scan_dedup = []; channel = [] }

module _ (L : DecimalLib) (c : ChainDepositCheck L.Decimal) where
  open L use {Decimal, lt, dec}

  -- `USDC_DUST_THRESHOLD`, `dec!(1.0)`
  abbrev pub usdc_dust_threshold : Decimal
  usdc_dust_threshold = dec 10 1

  abbrev pub deposit_of : DepositAddressConfig → UsdcReceive Decimal → EligibleDeposit Decimal
  deposit_of a receive = record {
    deposit_address = a.address;
    chain = c.chain;
    tx_hash = receive.tx_hash;
    usdc_amount = receive.amount;
    payment_method_id = a.payment_method_id;
    deposit_timestamp = receive.fetched_at;
    processed_at = (c.clock).sent_at c.chain a.address receive.tx_hash;
  }

  -- `some d` where the code sends `d` and returns true, `none` where it returns false.
  unfoldable pub send_if_eligible :
      DepositAddressConfig → ℕ → UsdcReceive Decimal → StringSet → Option (EligibleDeposit Decimal)
  send_if_eligible a current_block receive scan_dedup =
      if lt receive.amount usdc_dust_threshold
      then none
      else if StringSet.contains (c.state).processed_tx_hashes receive.tx_hash
          || StringSet.contains scan_dedup receive.tx_hash
      then none
      else if ltb (current_block - receive.block_number) (required_confirmations c)
      then none
      else if c.send (deposit_of a receive)
      then some (deposit_of a receive)
      else none

  abbrev pub track :
      Sent Decimal → UsdcReceive Decimal → Option (EligibleDeposit Decimal) → Sent Decimal
  track s receive none = s
  track s receive (some d) = record {
    hashes = s.hashes ++ (receive.tx_hash ∷ []);
    scan_dedup = StringSet.insert receive.tx_hash s.scan_dedup;
    channel = s.channel ++ (d ∷ []);
  }

  -- The loop over the receives.
  unfoldable pub send_all :
      DepositAddressConfig → ℕ → List (UsdcReceive Decimal) → Sent Decimal → Sent Decimal
  send_all a current_block [] s = s
  send_all a current_block (receive ∷ rest) s =
      send_all a current_block rest
        (track s receive (send_if_eligible a current_block receive s.scan_dedup))

  -- The scan's result, and the deposits that it sent.
  unfoldable pub address_scan :
      DepositAddressConfig → ℕ → ℕ → ChainResult × List (EligibleDeposit Decimal)
  address_scan a since_block current_block =
      elim ((c.explorer).fetch_usdc_receives a.address since_block current_block) [
        | ok fetch ↦
            let sent : Sent Decimal = send_all a current_block fetch.receives nothing_sent in
            (
              record {
                processed_tx_hashes = sent.hashes;
                confirmed_frontier =
                    some (min fetch.confirmed_frontier (current_block - required_confirmations c));
                errors = [];
              },
              sent.channel,
            )
        | err e ↦
            if is_chain_stale c (some a.address)
            then (
              failed_result (
                  (chain_name c.chain
                    <> ": fetch receives failed for "
                    <> a.address
                    <> ": "
                    <> message e)
                  ∷ []),
              [],
            )
            else (failed_result [], [])
      ]

  -- Where the scan begins: the last block seen, or the configured start of the chain.
  unfoldable pub option_since_block : Option ℕ
  option_since_block = elim (Dict.get c.chain (c.state).last_seen_block) [
    | some lsb ↦ some lsb.block_number
    | none ↦ start_block_for c.config c.chain
  ]

  unfoldable pub scan_addresses :
      List DepositAddressConfig → ℕ → ℕ → List (ChainResult × List (EligibleDeposit Decimal))
  scan_addresses addresses since_block current_block =
      map (λ a. address_scan a since_block current_block) addresses

  -- `ChainDepositCheck::run`: the chain's result, and the deposits that it sent.
  unfoldable pub run : ChainResult × List (EligibleDeposit Decimal)
  unfolding scan_addresses
  run = elim ((c.explorer).get_block_height) [
    | err e ↦
        if is_chain_stale c none
        then (
          failed_result ((chain_name c.chain <> ": block height failed: " <> message e) ∷ []),
          [],
        )
        else (failed_result [], [])
    | ok current_block ↦ elim option_since_block [
      | none ↦ (failed_result [], [])
      | some since_block ↦
          let scans = scan_addresses (c.config).deposit_addresses since_block current_block in
          (sum (map (λ s. s.0) scans), flatten (map (λ s. s.1) scans))
    ]
  ]
