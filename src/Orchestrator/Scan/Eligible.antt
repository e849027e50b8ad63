-- ===== src/Orchestrator/Scan/Eligible.antt =====
-- orchestrator.rs: when a receive is sent to the worker.
use cryptosweep.Base.{◌≡◌, ◌↔◌, ℕ, ◌-◌, ◌≤◌, true, false, some, arith}
use cryptosweep.Base.StringSet.{StringSet, contains}
use cryptosweep.Types.Address.{DepositAddressConfig}
use cryptosweep.Types.Decimal.{DecimalLib}
use cryptosweep.Types.State.{EligibleDeposit, UsdcReceive}
use cryptosweep.Orchestrator.Scan.{
  ChainDepositCheck, required_confirmations, usdc_dust_threshold, deposit_of, send_if_eligible,
}

module _ (L : DecimalLib) (c : ChainDepositCheck L.Decimal) (a : DepositAddressConfig)
    (current_block : ℕ) where
  open L use {Decimal, lt}

  -- What a receive needs to be sent.
  pub record IsEligible (receive : UsdcReceive Decimal) (scan_dedup : StringSet) : Type 0 where
    pub not_dust : lt receive.amount (usdc_dust_threshold L c) ≡ false
    pub not_processed : contains (c.state).processed_tx_hashes receive.tx_hash ≡ false
    pub not_sent : contains scan_dedup receive.tx_hash ≡ false
    pub confirmed : required_confirmations c ≤ current_block - receive.block_number
    pub accepted : c.send (deposit_of L c a receive) ≡ true

  pub send_if_eligible_iff :
      (receive : UsdcReceive Decimal) (scan_dedup : StringSet) (d : EligibleDeposit Decimal)
      → (send_if_eligible L c a current_block receive scan_dedup ≡ some d)
        ↔ (IsEligible receive scan_dedup × (d ≡ deposit_of L c a receive))
  unfolding send_if_eligible
  send_if_eligible_iff receive scan_dedup d = (λ h. (ground arith, ground arith), λ p. ground arith)
