-- ===== src/Orchestrator/Scan/Errors.antt =====
-- orchestrator.rs: when the check of a chain reports errors.
use mathlib.Core.List.{append_assoc, append-nil, foldl}
use cryptosweep.Base.{
  ◌≡◌, refl, sym, ap, ◌∙◌, ◌≢◌, ◌↔◌, ◌⊎◌, inl, inr, String, ℕ, ◌-◌, ◌*◌, ◌<◌, Option, none, some,
  true, Option-cases,
}
use cryptosweep.Base.{List, [], ◌∷◌, ◌++◌, map, arith, In, subst}
use cryptosweep.Base.Dict
use cryptosweep.Types.Chain.{chain_eq}
use cryptosweep.Types.Address.{DepositAddressConfig}
use cryptosweep.Types.Decimal.{DecimalLib}
use cryptosweep.Types.Error.{AppError, ok, err, Result-cases}
use cryptosweep.Types.State.{EligibleDeposit, LastSeenBlock}
use cryptosweep.Orchestrator.ChainResult.{ChainResult, empty, add, sum}
use cryptosweep.Orchestrator.Scan.{
  ChainDepositCheck, is_chain_stale, address_scan, option_since_block, scan_addresses, run,
}
use cryptosweep.Orchestrator.Scan.Run.{run_lem}

unfoldable pub all_errors : List ChainResult → List String
all_errors [] = []
all_errors (r ∷ rs) = r.errors ++ all_errors rs

foldl-errors :
    (acc : ChainResult) (rs : List ChainResult)
    → (foldl add acc rs).errors ≡ acc.errors ++ all_errors rs
unfolding all_errors add
foldl-errors acc [] = sym (append-nil acc.errors)
foldl-errors acc (r ∷ rs) =
    foldl-errors (add acc r) rs ∙ append_assoc acc.errors r.errors (all_errors rs)

sum-errors : (rs : List ChainResult) → (sum rs).errors ≡ all_errors rs
unfolding sum
sum-errors rs = foldl-errors empty rs

pub append-ne-nil_cases : (xs ys : List String) → xs ++ ys ≢ [] → (xs ≢ []) ⊎ (ys ≢ [])
append-ne-nil_cases [] ys h = inr h
append-ne-nil_cases (x ∷ xs) ys h = inl (λ e. cc)

pub append-ne-nil : (xs ys : List String) → (xs ≢ []) ⊎ (ys ≢ []) → xs ++ ys ≢ []
append-ne-nil [] ys (inl h) e = h refl
append-ne-nil [] ys (inr h) e = h e
append-ne-nil (x ∷ xs) ys h e = cc

module _ (L : DecimalLib) (c : ChainDepositCheck L.Decimal) where
  -- When the query has failed, no frontier is known or it is older than six hours, in nanoseconds.
  abbrev pub IsStale : Option String → Type 0
  IsStale failed =
      (Dict.get c.chain (c.state).last_seen_block ≡ none)
      ⊎ ((lsb : LastSeenBlock) × (Dict.get c.chain (c.state).last_seen_block ≡ some lsb)
          × (6 * 3600 * 1000000000 < (c.clock).stale_at c.chain failed - lsb.updated_at))

  is_chain_stale_iff : (failed : Option String) → (is_chain_stale c failed ≡ true) ↔ IsStale failed
  unfolding is_chain_stale
  is_chain_stale_iff failed = elim (Option-cases (Dict.get c.chain (c.state).last_seen_block)) [
    | inl absent ↦ (λ h. inl absent, λ h. rw (absent, is_chain_stale) refl)
    | inr (lsb, there) ↦ (
      λ h. let h' = rw (there, is_chain_stale) at h in inr (lsb, there, ground arith),
      elim [
        | inl absent ↦ absurd (cc (there, absent))
        | inr (l, there', old) ↦
            let same : l ≡ lsb = cc (there, there') in
            rw (there, is_chain_stale) (ground (arith, old, same))
      ],
    )
  ]

  -- A query fails on a check of the chain, for the height of the chain or for the receives of a
  -- monitored address, and the chain is stale when it has failed.
  pub data Trouble : Type 0 where
    no_height : (e : AppError) → IsStale none → (c.explorer).get_block_height ≡ err e → Trouble
    no_receives :
        (current_block since_block : ℕ) (a : DepositAddressConfig) (e : AppError)
        → IsStale (some a.address)
        → (c.explorer).get_block_height ≡ ok current_block
        → option_since_block L c ≡ some since_block
        → In a (c.config).deposit_addresses
        → (c.explorer).fetch_usdc_receives a.address since_block current_block ≡ err e
        → Trouble

  module _ (since_block current_block : ℕ) where
    abbrev FetchFails : DepositAddressConfig → Type 0
    FetchFails a =
        (is_chain_stale c (some a.address) ≡ true)
        × ((e : AppError) × ((c.explorer).fetch_usdc_receives a.address since_block current_block
              ≡ err e))

    abbrev scan_errors : DepositAddressConfig → List String
    scan_errors a = (address_scan L c a since_block current_block).0.errors

    scan_errors_iff : (a : DepositAddressConfig) → (scan_errors a ≢ []) ↔ FetchFails a
    unfolding address_scan
    scan_errors_iff a =
        elim (Result-cases ((c.explorer).fetch_usdc_receives a.address since_block current_block)) [
          | inl (f, answer) ↦ (λ h. absurd (h (ground arith)), λ p. ground (arith, p.1.1))
          | inr (e, fails) ↦ (λ h. (ground arith, (e, fails)), λ p q. ground arith)
        ]

    abbrev scans_errors : List DepositAddressConfig → List String
    scans_errors addresses =
        all_errors (map (λ s. s.0) (scan_addresses L c addresses since_block current_block))

    scans_errors-fails :
        (addresses : List DepositAddressConfig)
        → scans_errors addresses ≢ []
        → (a : DepositAddressConfig) × In a addresses × FetchFails a
    unfolding all_errors scan_addresses
    scans_errors-fails [] h = absurd (h refl)
    scans_errors-fails (a ∷ rest) h =
        elim (append-ne-nil_cases (scan_errors a) (scans_errors rest) h) [
          | inl here ↦ (a, inl refl, (scan_errors_iff a).0 here)
          | inr later ↦ let (b, i, fails) = scans_errors-fails rest later in (b, inr i, fails)
        ]

    fails-scans_errors :
        (addresses : List DepositAddressConfig) (a : DepositAddressConfig)
        → In a addresses
        → FetchFails a
        → scans_errors addresses ≢ []
    unfolding all_errors scan_addresses
    fails-scans_errors [] a i fails = absurd i
    fails-scans_errors (b ∷ rest) a (inl same) fails =
        append-ne-nil (scan_errors b) (scans_errors rest)
          (inl ((scan_errors_iff b).1 (subst FetchFails same fails)))
    fails-scans_errors (b ∷ rest) a (inr later) fails =
        append-ne-nil (scan_errors b) (scans_errors rest)
          (inr (fails-scans_errors rest a later fails))

  errors-run :
      (h since_block : ℕ)
      → (c.explorer).get_block_height ≡ ok h
      → option_since_block L c ≡ some since_block
      → (run L c).0.errors ≡ scans_errors since_block h (c.config).deposit_addresses
  errors-run h s height since =
      ap (λ (r : ChainResult × List (EligibleDeposit L.Decimal)). r.0.errors)
        (run_lem L c s h height since)
      ∙ sum-errors (map (λ r. r.0) (scan_addresses L c (c.config).deposit_addresses s h))

  errors-fails : (run L c).0.errors ≢ [] → Trouble
  unfolding run
  errors-fails h = elim (Result-cases (c.explorer).get_block_height) [
    | inr (e, fails) ↦ no_height e ((is_chain_stale_iff none).0 (ground arith)) fails
    | inl (b, height) ↦ elim (Option-cases (option_since_block L c)) [
      | inl unset ↦ absurd (h (ground arith))
      | inr (s, since) ↦
          let (a, i, (stale, (e, fails))) =
            scans_errors-fails s b (c.config).deposit_addresses
              (λ none_at. h (errors-run b s height since ∙ none_at)) in
          no_receives b s a e ((is_chain_stale_iff (some a.address)).0 stale) height since i fails
    ]
  ]

  fails-errors : Trouble → (run L c).0.errors ≢ []
  unfolding run
  fails-errors (no_height e old fails) =
      let stale = (is_chain_stale_iff none).1 old in λ p. ground arith
  fails-errors (no_receives h s a e stale height since i fails) = λ p.
      fails-scans_errors s h (c.config).deposit_addresses a i
        ((is_chain_stale_iff (some a.address)).1 stale, (e, fails))
        (sym (errors-run h s height since) ∙ p)

  -- The check of a chain reports an error exactly when a query fails, for the height of the chain or
  -- for the receives of a monitored address, and the chain is stale at that moment: no
  -- frontier is known for it, or it was updated more than six hours before.
  pub run_errors_iff : ((run L c).0.errors ≢ []) ↔ Trouble
  run_errors_iff = (errors-fails, fails-errors)
