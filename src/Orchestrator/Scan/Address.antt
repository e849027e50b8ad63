-- ===== src/Orchestrator/Scan/Address.antt =====
-- orchestrator.rs: what the scan of one address sends to the worker.
use mathlib.Core.List.{map-append}
use cryptosweep.Base.{◌≡◌, refl, String, ℕ, true, false}
use cryptosweep.Base.{List, [], ◌∷◌, map, string_eq, arith, inl, inr, Option-cases}
use cryptosweep.Base.StringSet.{
  contains, contains-insert, contains-append, NodupStrings, snoc-NodupStrings,
}
use cryptosweep.Types.Address.{DepositAddressConfig}
use cryptosweep.Types.Decimal.{DecimalLib}
use cryptosweep.Types.State.{UsdcReceive}
use cryptosweep.Orchestrator.Scan.{
  ChainDepositCheck, Sent, nothing_sent, send_if_eligible, track, send_all,
}
use cryptosweep.Orchestrator.Scan.Eligible.{send_if_eligible_iff}

module _ (L : DecimalLib) (c : ChainDepositCheck L.Decimal) (a : DepositAddressConfig)
    (current_block : ℕ) where
  open L use {Decimal}

  -- The loop's invariant.
  pub record IsConsistent (s : Sent Decimal) : Type 0 where
    -- the tracked hashes are those of the deposits in the channel
    pub tracks : map (λ d. d.tx_hash) s.channel ≡ s.hashes
    pub dedups : (h : String) → contains s.scan_dedup h ≡ contains s.hashes h
    -- no hash is sent twice
    pub nodup : NodupStrings s.hashes
    -- no hash is sent that a former run has processed
    pub fresh :
        (h : String) → contains s.hashes h ≡ true → contains (c.state).processed_tx_hashes h ≡ false

  pub nothing_sent-IsConsistent : IsConsistent nothing_sent
  unfolding contains
  nothing_sent-IsConsistent = record {
    tracks = refl;
    dedups = λ h. refl;
    nodup = tt;
    fresh = λ h e. cc;
  }

  pub track-IsConsistent :
      (s : Sent Decimal) (r : UsdcReceive Decimal)
      → IsConsistent s
      → IsConsistent (track L c s r (send_if_eligible L c a current_block r s.scan_dedup))
  unfolding contains
  track-IsConsistent s r v =
      elim (Option-cases (send_if_eligible L c a current_block r s.scan_dedup)) [
        | inl skipped ↦ rw skipped v
        | inr (d, sent) ↦
            let (e, same) = (send_if_eligible_iff L c a current_block r s.scan_dedup d).0 sent in
            rw sent (record {
              tracks = rw map-append (cc (v.tracks, same));
              dedups = λ h. rw (contains-insert, contains-append) (ground (arith, v.dedups h));
              nodup =
                  snoc-NodupStrings s.hashes r.tx_hash v.nodup
                    (ground (arith, v.dedups r.tx_hash, e.not_sent));
              fresh = λ h. rw contains-append (ground (arith, v.fresh h, e.not_processed));
            })
      ]

  pub send_all-IsConsistent :
      (receives : List (UsdcReceive Decimal)) (s : Sent Decimal)
      → IsConsistent s
      → IsConsistent (send_all L c a current_block receives s)
  unfolding send_all
  send_all-IsConsistent [] s v = v
  send_all-IsConsistent (r ∷ rest) s v =
      send_all-IsConsistent rest
        (track L c s r (send_if_eligible L c a current_block r s.scan_dedup))
        (track-IsConsistent s r v)

  -- The scan of an address tracks exactly the hashes that it sends, sends no hash twice and sends
  -- none that is processed already.
  pub send_all-nothing-IsConsistent :
      (receives : List (UsdcReceive Decimal))
      → IsConsistent (send_all L c a current_block receives nothing_sent)
  send_all-nothing-IsConsistent receives =
      send_all-IsConsistent receives nothing_sent nothing_sent-IsConsistent
