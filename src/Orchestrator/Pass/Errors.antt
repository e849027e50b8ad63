-- ===== src/Orchestrator/Pass/Errors.antt =====
-- orchestrator.rs: the errors that a pass returns are those of the chains' checks.
use mathlib.Core.List.{append_assoc, append-nil, foldl}
use cryptosweep.Base.{
  ◌≡◌, refl, sym, ap, ◌∙◌, ◌≢◌, inl, inr, String, some, List, [], ◌∷◌, ◌++◌, map, In, Option-cases,
  subst,
}
use cryptosweep.Base.Dict
use cryptosweep.Types.Chain.{Chain, chain_eq}
use cryptosweep.Types.Decimal.{DecimalLib}
use cryptosweep.Types.State.{PersistedState, LiquidationResult}
use cryptosweep.Types.Traits.{BlockExplorer}
use cryptosweep.Orchestrator.Scan.{Clock}
use cryptosweep.Orchestrator.Scan
use cryptosweep.Orchestrator.Scan.Errors.{all_errors, append-ne-nil, append-ne-nil_cases}
use cryptosweep.Orchestrator.Pass.{
  DepositCheck, Found, check_of, found_by, discover, chain_results, merge_chain, run,
}

-- The errors of the chains' results, in their order.
abbrev pub found_errors : {D : Type 0} → List (Found D) → List String
found_errors fs = all_errors (map (λ f. f.1.0) fs)

errors-merge_chain :
    {D : Type 0} (clock : Clock) (fs : List (Found D)) (s : PersistedState D) (es : List String)
    → (foldl (merge_chain clock) (s, es) fs).1 ≡ es ++ found_errors fs
unfolding merge_chain all_errors
errors-merge_chain clock [] s es = sym (append-nil es)
errors-merge_chain clock ((chain, (r, sent)) ∷ fs) s es =
    errors-merge_chain clock fs (merge_chain clock (s, es) (chain, (r, sent))).0 (es ++ r.errors)
    ∙ append_assoc es r.errors (found_errors fs)

module _ (L : DecimalLib) (p : DepositCheck L.Decimal) where
  open L use {Decimal}

  pub errors-run :
      (ls : List (LiquidationResult Decimal)) → (run L p ls).0 ≡ found_errors (chain_results L p)
  unfolding run
  errors-run ls = errors-merge_chain p.clock (chain_results L p) p.state []

  -- The check of the chain, which has this explorer, reports an error.
  abbrev pub Reports : Chain → Type 0
  Reports chain =
      (explorer : BlockExplorer Decimal) × (Dict.get chain p.explorers ≡ some explorer)
      × ((Scan.run L (check_of p chain explorer)).0.errors ≢ [])

  found_by-Reports :
      (chain : Chain)
      → found_errors (found_by L p chain (Dict.get chain p.explorers)) ≢ []
      → Reports chain
  unfolding all_errors
  found_by-Reports chain h = elim (Option-cases (Dict.get chain p.explorers)) [
    | inl absent ↦ absurd (h (rw absent refl))
    | inr (e, there) ↦ (e, there, λ q. h (rw there (ap (λ x. x ++ []) q)))
  ]

  Reports-found_by :
      (chain : Chain)
      → Reports chain
      → found_errors (found_by L p chain (Dict.get chain p.explorers)) ≢ []
  unfolding all_errors
  Reports-found_by chain (e, there, bad) q =
      bad (sym (append-nil (Scan.run L (check_of p chain e)).0.errors) ∙ (rw there at q))

  split-errors :
      (fs gs : List (Found Decimal)) → found_errors (fs ++ gs) ≡ found_errors fs ++ found_errors gs
  unfolding all_errors
  split-errors [] gs = refl
  split-errors (f ∷ fs) gs =
      ap (λ x. f.1.0.errors ++ x) (split-errors fs gs)
      ∙ sym (append_assoc f.1.0.errors (found_errors fs) (found_errors gs))

  pub discover-Reports :
      (cs : List Chain)
      → found_errors (discover L p cs) ≢ []
      → (chain : Chain) × In chain cs × Reports chain
  unfolding discover all_errors
  discover-Reports [] h = absurd (h refl)
  discover-Reports (c ∷ cs) h =
      let first = found_by L p c (Dict.get c p.explorers) in
      elim (append-ne-nil_cases (found_errors first) (found_errors (discover L p cs))
        (λ q. h (split-errors first (discover L p cs) ∙ q))) [
          | inl here ↦ (c, inl refl, found_by-Reports c here)
          | inr later ↦
              let (chain, i, reports) = discover-Reports cs later in (chain, inr i, reports)
        ]

  pub Reports-discover :
      (cs : List Chain) (chain : Chain)
      → In chain cs
      → Reports chain
      → found_errors (discover L p cs) ≢ []
  unfolding discover
  Reports-discover [] chain i reports q = absurd i
  Reports-discover (c ∷ cs) chain i reports q =
      let first = found_by L p c (Dict.get c p.explorers) in
      append-ne-nil (found_errors first) (found_errors (discover L p cs))
        (elim i [
          | inl same ↦ inl (Reports-found_by c (subst Reports same reports))
          | inr later ↦ inr (Reports-discover cs chain later reports)
        ])
        (sym (split-errors first (discover L p cs)) ∙ q)
