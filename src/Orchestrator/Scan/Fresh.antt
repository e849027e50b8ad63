-- ===== src/Orchestrator/Scan/Fresh.antt =====
-- orchestrator.rs: the deposits that the check of a chain sends are new, and are tracked.
use cryptosweep.Base.{◌≡◌, ap, inl, inr, String, true, false, List, [], ◌∷◌, map, arith, In}
use cryptosweep.Base.{In-flatten-map, In-map, string_eq, subst, sym, Option-cases, some, ℕ}
use cryptosweep.Base.StringSet.{contains}
use cryptosweep.Types.Address.{DepositAddressConfig}
use cryptosweep.Types.Decimal.{DecimalLib}
use cryptosweep.Types.Error.{ok, Result-cases}
use cryptosweep.Types.State.{EligibleDeposit}
use cryptosweep.Orchestrator.ChainResult.{ChainResult}
use cryptosweep.Orchestrator.ChainResult.Laws.{contains-sum}
use cryptosweep.Orchestrator.Scan.{
  ChainDepositCheck, nothing_sent, send_all, address_scan, option_since_block, scan_addresses, run,
}
use cryptosweep.Orchestrator.Scan.Address.{send_all-nothing-IsConsistent}
use cryptosweep.Orchestrator.Scan.Run.{result_of, results_of, scanned, In-results_of, run_lem}

contains-map :
    {D : Type 0} (d : EligibleDeposit D) (ds : List (EligibleDeposit D))
    → In d ds
    → contains (map (λ x. x.tx_hash) ds) d.tx_hash ≡ true
unfolding contains
contains-map d [] i = absurd i
contains-map d (e ∷ ds) (inl same) = ground (arith, ap (λ x. x.tx_hash) same)
contains-map d (e ∷ ds) (inr later) = ground (arith, contains-map d ds later)

module _ (L : DecimalLib) (c : ChainDepositCheck L.Decimal) where
  open L use {Decimal}

  -- Not processed by a former run, and tracked among `hashes`.
  abbrev pub IsNew : List String → EligibleDeposit Decimal → Type 0
  IsNew hashes d =
      (contains (c.state).processed_tx_hashes d.tx_hash ≡ false)
      × (contains hashes d.tx_hash ≡ true)

  address_scan-IsNew :
      (a : DepositAddressConfig) (since_block current_block : ℕ) (d : EligibleDeposit Decimal)
      → In d (address_scan L c a since_block current_block).1
      → IsNew (address_scan L c a since_block current_block).0.processed_tx_hashes d
  unfolding address_scan
  address_scan-IsNew a since_block current_block d i =
      elim (Result-cases ((c.explorer).fetch_usdc_receives a.address since_block current_block)) [
        | inl (fetch, answer) ↦
            let sent = send_all L c a current_block fetch.receives nothing_sent in
            let v = send_all-nothing-IsConsistent L c a current_block fetch.receives in
            let member = rw (answer, address_scan) at i in
            let tracked : contains sent.hashes d.tx_hash ≡ true =
              subst (λ hs. contains hs d.tx_hash ≡ true) v.tracks
                (contains-map d sent.channel member) in
            rw (answer, address_scan) (v.fresh d.tx_hash tracked, tracked)
        | inr (e, fails) ↦
            let none_sent : (address_scan L c a since_block current_block).1 ≡ [] = ground arith in
            absurd (subst (In d) none_sent i)
      ]

  run-IsNew_at :
      (since_block current_block : ℕ)
      → (c.explorer).get_block_height ≡ ok current_block
      → option_since_block L c ≡ some since_block
      → (d : EligibleDeposit Decimal) → In d (run L c).1
      → IsNew (run L c).0.processed_tx_hashes d
  unfolding scan_addresses
  run-IsNew_at since_block current_block height since d i =
      let e : run L c ≡ scanned L c since_block current_block =
        run_lem L c since_block current_block height since in
      let addresses = (c.config).deposit_addresses in
      let scans = scan_addresses L c addresses since_block current_block in
      let (s, is, id) =
        In-flatten-map (λ (x : ChainResult × List (EligibleDeposit Decimal)). x.1) d scans
          (subst (λ (r : ChainResult × List (EligibleDeposit Decimal)). In d r.1) e i) in
      let (a, ia, same) =
        In-map (λ a. address_scan L c a since_block current_block) s addresses is in
      let (new, tracked) =
        address_scan-IsNew a since_block current_block d
          (subst (λ (r : ChainResult × List (EligibleDeposit Decimal)). In d r.1) same id) in
      subst (λ (r : ChainResult × List (EligibleDeposit Decimal)). IsNew r.0.processed_tx_hashes d)
        (sym e)
        (
          new,
          contains-sum d.tx_hash (results_of L c since_block current_block addresses)
              (result_of L c since_block current_block a)
              (In-results_of L c since_block current_block a addresses ia) tracked,
        )

  -- Every deposit that the check of a chain sends has a hash that no former run has processed, and
  -- its hash is tracked in the result.
  pub run-IsNew :
      (d : EligibleDeposit Decimal) → In d (run L c).1 → IsNew (run L c).0.processed_tx_hashes d
  unfolding run
  run-IsNew d i = elim (Result-cases (c.explorer).get_block_height) [
    | inr (e, fails) ↦
        let none_sent : (run L c).1 ≡ [] = ground arith in absurd (subst (In d) none_sent i)
    | inl (h, height) ↦ elim (Option-cases (option_since_block L c)) [
      | inl unset ↦
          let none_sent : (run L c).1 ≡ [] = ground arith in absurd (subst (In d) none_sent i)
      | inr (s, since) ↦ run-IsNew_at s h height since d i
    ]
  ]
