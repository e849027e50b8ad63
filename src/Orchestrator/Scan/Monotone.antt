-- ===== src/Orchestrator/Scan/Monotone.antt =====
-- orchestrator.rs: the frontier of a chain's check does not lie before the start of its scan.
use cryptosweep.Base.{◌≡◌, inl, inr, ℕ, ◌+◌, ◌≤◌, some, In, In-map, List, arith, u64_max, subst}
use cryptosweep.Types.Address.{DepositAddressConfig}
use cryptosweep.Types.Decimal.{DecimalLib}
use cryptosweep.Types.Error.{ok, Result-cases}
use cryptosweep.Types.State.{EligibleDeposit, FetchReceivesOk}
use cryptosweep.Orchestrator.ChainResult.{ChainResult, latest_seen_block}
use cryptosweep.Orchestrator.ChainResult.Laws.{sum-IsWord, sum-frontier-ge, latest_seen_block-lt}
use cryptosweep.Orchestrator.Scan.{
  ChainDepositCheck, required_confirmations, address_scan, option_since_block, scan_addresses, run,
}
use cryptosweep.Orchestrator.Scan.Run.{scanned, run_lem, results_of, results_of-AllWords}

module _ (L : DecimalLib) (c : ChainDepositCheck L.Decimal) (since_block : ℕ) where
  open L use {Decimal}

  -- What a node that is not set back answers: its head is at least the required confirmations past
  -- the start of the scan, and the frontier of each answer does not lie before the start.
  pub record IsSteady (current_block : ℕ) : Type 0 where
    pub ahead : since_block + required_confirmations c ≤ current_block
    pub word : current_block ≤ u64_max
    pub forward :
        (a : DepositAddressConfig) (fetch : FetchReceivesOk Decimal)
        → In a (c.config).deposit_addresses
        → (c.explorer).fetch_usdc_receives a.address since_block current_block ≡ ok fetch
        → since_block ≤ fetch.confirmed_frontier

  address_scan-frontier-ge :
      (current_block g : ℕ) (a : DepositAddressConfig)
      → IsSteady current_block
      → In a (c.config).deposit_addresses
      → (address_scan L c a since_block current_block).0.confirmed_frontier ≡ some g
      → since_block ≤ g
  unfolding address_scan
  address_scan-frontier-ge current_block g a steady i e =
      elim (Result-cases ((c.explorer).fetch_usdc_receives a.address since_block current_block)) [
        | inl (fetch, answer) ↦ ground (arith, steady.ahead, steady.forward a fetch i answer)
        | inr (m, fails) ↦ ground (arith, fails)
      ]

  results_of-frontier-ge :
      (current_block : ℕ) (r : ChainResult) (g : ℕ)
      → IsSteady current_block
      → In r (results_of L c since_block current_block (c.config).deposit_addresses)
      → r.confirmed_frontier ≡ some g
      → since_block ≤ g
  unfolding scan_addresses
  results_of-frontier-ge current_block r g steady i e =
      let addresses = (c.config).deposit_addresses in
      let scans = scan_addresses L c addresses since_block current_block in
      let (s, is, es) = In-map (λ x. x.0) r scans i in
      let (a, ia, ea) = In-map (λ x. address_scan L c x since_block current_block) s addresses is in
      address_scan-frontier-ge current_block g a steady ia (
        subst
          (λ (x : ChainResult × List (EligibleDeposit Decimal)). x.0.confirmed_frontier ≡ some g) ea
          (subst (λ (x : ChainResult). x.confirmed_frontier ≡ some g) es e))

  -- The check of a chain that scans from `since_block`, over a steady node, reports no frontier
  -- before it.
  pub run-frontier-ge :
      (current_block f : ℕ)
      → IsSteady current_block
      → (c.explorer).get_block_height ≡ ok current_block
      → option_since_block L c ≡ some since_block
      → latest_seen_block (run L c).0 ≡ some f
      → since_block ≤ f
  run-frontier-ge current_block f steady height since seen =
      let addresses = (c.config).deposit_addresses in
      let results = results_of L c since_block current_block addresses in
      let seen' : latest_seen_block (scanned L c since_block current_block).0 ≡ some f =
        subst (λ (r : ChainResult × List (EligibleDeposit Decimal)). latest_seen_block r.0 ≡ some f)
          (run_lem L c since_block current_block height since) seen in
      let (has, _) =
        latest_seen_block-lt (scanned L c since_block current_block).0 f
          (sum-IsWord results
            (results_of-AllWords L c since_block current_block addresses steady.word))
          seen' in
      sum-frontier-ge results since_block f (omega (arith, steady.ahead, steady.word))
        (λ r g i e. results_of-frontier-ge current_block r g steady i e) has

-- A check that reports a frontier has been told the height of the chain.
pub run-height :
    (L : DecimalLib) (c : ChainDepositCheck L.Decimal) (f : ℕ)
    → latest_seen_block (run L c).0 ≡ some f
    → (h : ℕ) × ((c.explorer).get_block_height ≡ ok h)
unfolding run latest_seen_block
run-height L c f seen = elim (Result-cases (c.explorer).get_block_height) [
  | inl (h, height) ↦ (h, height)
  | inr (e, fails) ↦ absurd (ground (arith, fails))
]
