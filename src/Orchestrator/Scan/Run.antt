-- ===== src/Orchestrator/Scan/Run.antt =====
-- orchestrator.rs: what the check of a whole chain guarantees to the next run.
use cryptosweep.Base.{◌≡◌, ◌⊎◌, inl, inr, ap, String, ℕ, ◌≤◌, none, some, true}
use cryptosweep.Base.{List, [], ◌∷◌, map, flatten, arith, In, u64_max, subst, sym}
use cryptosweep.Base.StringSet.{contains}
use cryptosweep.Types.Address.{DepositAddressConfig}
use cryptosweep.Types.Decimal.{DecimalLib}
use cryptosweep.Types.Error.{AppError, ok, err, Result-cases}
use cryptosweep.Types.State.{EligibleDeposit, UsdcReceive, FetchReceivesOk}
use cryptosweep.Orchestrator.ChainResult.{ChainResult, sum, latest_seen_block}
use cryptosweep.Orchestrator.ChainResult.Laws.{
  AllWords, sum-IsWord, sum-frontier-le, contains-sum, latest_seen_block-lt,
}
use cryptosweep.Orchestrator.Scan.{
  ChainDepositCheck, address_scan, option_since_block, scan_addresses, run,
}
use cryptosweep.Orchestrator.Scan.Frontier.{
  Settled, dust, processed, sent, refused, address_scan_resumes, address_scan-IsWord,
}

module _ (L : DecimalLib) (c : ChainDepositCheck L.Decimal) (since_block current_block : ℕ) where
  open L use {Decimal}

  abbrev pub result_of : DepositAddressConfig → ChainResult
  result_of a = (address_scan L c a since_block current_block).0

  abbrev pub results_of : List DepositAddressConfig → List ChainResult
  results_of addresses = map (λ s. s.0) (scan_addresses L c addresses since_block current_block)

  pub results_of-AllWords :
      (addresses : List DepositAddressConfig)
      → current_block ≤ u64_max
      → AllWords (results_of addresses)
  unfolding scan_addresses
  results_of-AllWords [] small = tt
  results_of-AllWords (a ∷ rest) small =
      (address_scan-IsWord L c a current_block since_block small, results_of-AllWords rest small)

  pub In-results_of :
      (a : DepositAddressConfig) (addresses : List DepositAddressConfig)
      → In a addresses
      → In (result_of a) (results_of addresses)
  unfolding scan_addresses
  In-results_of a [] i = absurd i
  In-results_of a (b ∷ rest) (inl same) = inl (ap result_of same)
  In-results_of a (b ∷ rest) (inr later) = inr (In-results_of a rest later)

  -- An address that the run may leave behind at the frontier `f`: the explorer has answered for it
  -- up to `f` at least, and what it found before `f` is settled.
  abbrev pub IsCovered : List String → ℕ → DepositAddressConfig → Type 0
  IsCovered hashes f a =
      (fetch : FetchReceivesOk Decimal) × ((c.explorer).fetch_usdc_receives a.address since_block
          current_block
        ≡ ok fetch)
      × (f ≤ fetch.confirmed_frontier)
      × ((r : UsdcReceive Decimal)
          → In r fetch.receives
          → Settled L c a current_block hashes r ⊎ (f ≤ r.block_number))

  Settled-mono :
      (a : DepositAddressConfig) (hashes more : List String) (r : UsdcReceive Decimal)
      → (contains hashes r.tx_hash ≡ true → contains more r.tx_hash ≡ true)
      → Settled L c a current_block hashes r
      → Settled L c a current_block more r
  Settled-mono a hashes more r grow (dust e) = dust e
  Settled-mono a hashes more r grow (processed e) = processed e
  Settled-mono a hashes more r grow (sent e) = sent (grow e)
  Settled-mono a hashes more r grow (refused e) = refused e

  failed-no-frontier :
      (a : DepositAddressConfig) (e : AppError)
      → (c.explorer).fetch_usdc_receives a.address since_block current_block ≡ err e
      → (result_of a).confirmed_frontier ≡ none
  unfolding address_scan
  failed-no-frontier a e fails = ground arith

  cover :
      (addresses : List DepositAddressConfig) (a : DepositAddressConfig) (f : ℕ)
      → current_block ≤ u64_max
      → In a addresses
      → (sum (results_of addresses)).confirmed_frontier ≡ some f
      → IsCovered (sum (results_of addresses)).processed_tx_hashes f a
  cover addresses a f small i e =
      let words = results_of-AllWords addresses small in
      let member = In-results_of a addresses i in
      let (g, has, below) = sum-frontier-le (results_of addresses) (result_of a) f words e member in
      elim (Result-cases ((c.explorer).fetch_usdc_receives a.address since_block current_block)) [
        | inr (e', fails) ↦ cc (failed-no-frontier a e' fails, has)
        | inl (fetch, answer) ↦
            let (k, has', scanned, floor, settled) =
              address_scan_resumes L c a current_block since_block fetch answer in
            let same : k ≡ g = ground (arith, has, has') in
            (
              fetch,
              answer,
              omega arith,
              λ r found. elim (settled r found) [
                | inl done ↦ inl (
                    Settled-mono a (result_of a).processed_tx_hashes
                      (sum (results_of addresses)).processed_tx_hashes r
                      (contains-sum r.tx_hash (results_of addresses) (result_of a) member) done)
                | inr later ↦ inr (omega arith)
              ],
            )
      ]

  abbrev pub scanned : ChainResult × List (EligibleDeposit Decimal)
  scanned =
      let scans = scan_addresses L c (c.config).deposit_addresses since_block current_block in
      (sum (map (λ s. s.0) scans), flatten (map (λ s. s.1) scans))

  pub run_lem :
      (c.explorer).get_block_height ≡ ok current_block
      → option_since_block L c ≡ some since_block
      → run L c ≡ scanned
  unfolding run
  run_lem height since = ground arith

  -- A chain's check that scans from `since_block` to `current_block`, which is a `u64`, reports a
  -- frontier only if the explorer has answered for every monitored address up to it at least. Then
  -- every receive of these answers is dust, is processed already, is refused by the channel or is
  -- tracked as sent, or it stands in the frontier's block or a later one, which the next run reads
  -- again.
  pub run_resumes :
      (f : ℕ) (a : DepositAddressConfig)
      → (c.explorer).get_block_height ≡ ok current_block
      → option_since_block L c ≡ some since_block
      → current_block ≤ u64_max
      → latest_seen_block (run L c).0 ≡ some f
      → In a (c.config).deposit_addresses
      → IsCovered (run L c).0.processed_tx_hashes f a
  run_resumes f a height since small seen i =
      let e : run L c ≡ scanned = run_lem height since in
      let words = results_of-AllWords (c.config).deposit_addresses small in
      let (has, _) =
        latest_seen_block-lt scanned.0 f
          (sum-IsWord (results_of (c.config).deposit_addresses) words)
          (subst
            (λ (r : ChainResult × List (EligibleDeposit Decimal)). latest_seen_block r.0 ≡ some f) e
            seen) in
      subst
        (λ (r : ChainResult × List (EligibleDeposit Decimal)).
          IsCovered r.0.processed_tx_hashes f a)
        (sym e) (cover (c.config).deposit_addresses a f small i has)
