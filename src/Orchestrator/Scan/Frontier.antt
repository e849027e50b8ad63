-- ===== src/Orchestrator/Scan/Frontier.antt =====
-- orchestrator.rs: the frontier of a scan never passes a deposit that is still to be sent.
use cryptosweep.Base.{
  ◌≡◌, refl, ◌⊎◌, inl, inr, String, ℕ, ◌-◌, ◌≤◌, ◌<◌, min, true, false, Option, none, some,
}
use cryptosweep.Base.{List, [], ◌∷◌, ◌++◌, string_eq, arith, In, Option-cases, Bool-cases, u64_max}
use cryptosweep.Base.StringSet.{StringSet, contains, contains-append}
use cryptosweep.Types.Address.{DepositAddressConfig}
use cryptosweep.Types.Decimal.{DecimalLib}
use cryptosweep.Types.Error.{ok, Result-cases}
use cryptosweep.Types.State.{EligibleDeposit, UsdcReceive, FetchReceivesOk}
use cryptosweep.Orchestrator.ChainResult.{ChainResult}
use cryptosweep.Orchestrator.ChainResult.Laws.{IsWord}
use cryptosweep.Orchestrator.Scan.{
  ChainDepositCheck, is_chain_stale, Sent, nothing_sent, deposit_of, usdc_dust_threshold,
  required_confirmations, send_if_eligible, track, send_all, address_scan,
}
use cryptosweep.Orchestrator.Scan.Address.{
  IsConsistent, nothing_sent-IsConsistent, track-IsConsistent,
}

module _ (L : DecimalLib) (c : ChainDepositCheck L.Decimal) (a : DepositAddressConfig)
    (current_block : ℕ) where
  open L use {Decimal, lt}

  -- Why a receive is not sent, or that its hash is: among `hashes` stand those that were sent.
  pub data Settled (hashes : List String) (r : UsdcReceive Decimal) : Type 0 where
    dust : lt r.amount (usdc_dust_threshold L c) ≡ true → Settled hashes r
    processed : contains (c.state).processed_tx_hashes r.tx_hash ≡ true → Settled hashes r
    sent : contains hashes r.tx_hash ≡ true → Settled hashes r
    refused : c.send (deposit_of L c a r) ≡ false → Settled hashes r

  abbrev pub IsPending : UsdcReceive Decimal → Type 0
  IsPending r = current_block - r.block_number < required_confirmations c

  Settled-append :
      (hashes : List String) (h : String) (r : UsdcReceive Decimal)
      → Settled hashes r
      → Settled (hashes ++ (h ∷ [])) r
  Settled-append hashes h r (dust e) = dust e
  Settled-append hashes h r (processed e) = processed e
  Settled-append hashes h r (sent e) = sent (rw contains-append (ground arith))
  Settled-append hashes h r (refused e) = refused e

  Settled-track :
      (s : Sent Decimal) (x r : UsdcReceive Decimal) (o : Option (EligibleDeposit Decimal))
      → Settled s.hashes r
      → Settled (track L c s x o).hashes r
  Settled-track s x r none h = h
  Settled-track s x r (some d) h = Settled-append s.hashes x.tx_hash r h

  Settled-send_all :
      (receives : List (UsdcReceive Decimal)) (s : Sent Decimal) (r : UsdcReceive Decimal)
      → Settled s.hashes r
      → Settled (send_all L c a current_block receives s).hashes r
  unfolding send_all
  Settled-send_all [] s r h = h
  Settled-send_all (x ∷ rest) s r h =
      Settled-send_all rest (track L c s x (send_if_eligible L c a current_block x s.scan_dedup)) r
        (Settled-track s x r (send_if_eligible L c a current_block x s.scan_dedup) h)

  skip_reason :
      (r : UsdcReceive Decimal) (scan_dedup : StringSet)
      → send_if_eligible L c a current_block r scan_dedup ≡ none
      → (lt r.amount (usdc_dust_threshold L c) ≡ true)
        ⊎ (contains (c.state).processed_tx_hashes r.tx_hash ≡ true)
        ⊎ (contains scan_dedup r.tx_hash ≡ true)
        ⊎ (c.send (deposit_of L c a r) ≡ false)
        ⊎ IsPending r
  unfolding send_if_eligible
  skip_reason r scan_dedup h = ground arith

  -- One receive is settled, or it has too few confirmations.
  settle :
      (s : Sent Decimal) (r : UsdcReceive Decimal)
      → IsConsistent L c a current_block s
      → Settled (track L c s r (send_if_eligible L c a current_block r s.scan_dedup)).hashes r
        ⊎ IsPending r
  unfolding contains
  settle s r v = elim (Option-cases (send_if_eligible L c a current_block r s.scan_dedup)) [
    | inr (d, goes) ↦ inl (rw goes (sent (rw contains-append (ground arith))))
    | inl skipped ↦ rw skipped (elim (skip_reason r s.scan_dedup skipped) [
      | inl e ↦ inl (dust e)
      | inr (inl e) ↦ inl (processed e)
      | inr (inr (inl e)) ↦ inl (sent (ground (arith, v.dedups r.tx_hash)))
      | inr (inr (inr (inl e))) ↦ inl (refused e)
      | inr (inr (inr (inr e))) ↦ inr e
    ])
  ]

  settle_all :
      (receives : List (UsdcReceive Decimal)) (s : Sent Decimal) (r : UsdcReceive Decimal)
      → IsConsistent L c a current_block s
      → In r receives
      → Settled (send_all L c a current_block receives s).hashes r ⊎ IsPending r
  unfolding send_all
  settle_all [] s r v i = absurd i
  settle_all (x ∷ rest) s r v (inr later) =
      settle_all rest (track L c s x (send_if_eligible L c a current_block x s.scan_dedup)) r
        (track-IsConsistent L c a current_block s x v) later
  settle_all (x ∷ rest) s r v (inl same) = rw same (elim (settle s x v) [
    | inr pending ↦ inr pending
    | inl settled ↦ inl (
        Settled-send_all rest (track L c s x (send_if_eligible L c a current_block x s.scan_dedup))
          x settled)
  ])

  pending-le :
      (block required : ℕ) → current_block - block < required → current_block - required ≤ block
  pending-le block required h = omega arith

  -- The frontier that a scan reports.
  abbrev pub HasFrontier : ChainResult → ℕ → Type 0
  HasFrontier result f = result.confirmed_frontier ≡ some f

  -- Where the explorer answers, the scan reports a frontier. It passes neither what the explorer has
  -- scanned nor the confirmation floor, and every receive of the answer is settled or stands in the
  -- frontier's block or a later one, which the next scan reads again.
  pub address_scan_resumes :
      (since_block : ℕ) (fetch : FetchReceivesOk Decimal)
      → (c.explorer).fetch_usdc_receives a.address since_block current_block ≡ ok fetch
      → let result = (address_scan L c a since_block current_block).0 in
        (f : ℕ) × HasFrontier result f
        × (f ≤ fetch.confirmed_frontier)
        × (f ≤ current_block - required_confirmations c)
        × ((r : UsdcReceive Decimal)
            → In r fetch.receives
            → Settled result.processed_tx_hashes r ⊎ (f ≤ r.block_number))
  unfolding address_scan
  address_scan_resumes since_block fetch answer =
      rw (answer, address_scan)
        (
          min fetch.confirmed_frontier (current_block - required_confirmations c),
          refl,
          omega arith,
          omega arith,
          λ r i.
              elim (settle_all fetch.receives nothing_sent r
                (nothing_sent-IsConsistent L c a current_block) i) [
                  | inl settled ↦ inl settled
                  | inr pending ↦
                      inr (
                        omega (arith, pending-le r.block_number (required_confirmations c) pending))
                ],
        )

  pub address_scan-IsWord :
      (since_block : ℕ)
      → current_block ≤ u64_max
      → IsWord (address_scan L c a since_block current_block).0.confirmed_frontier
  unfolding address_scan
  address_scan-IsWord since_block small =
      elim (Result-cases ((c.explorer).fetch_usdc_receives a.address since_block current_block)) [
        | inl (fetch, answer) ↦ rw (answer, address_scan) (omega arith)
        | inr (e, fails) ↦ elim (Bool-cases (is_chain_stale c (some a.address))) [
          | inl stale ↦ rw (fails, address_scan, stale) tt
          | inr recent ↦ rw (fails, address_scan, recent) tt
        ]
      ]
