-- ===== src/Orchestrator/Pass/Detected.antt =====
-- orchestrator.rs with explorer.rs: a pass misses no transfer behind the frontier that it leaves.
use cryptosweep.Base.{
  ◌≡◌, refl, sym, ap, ◌∙◌, subst, ◌⊎◌, inl, inr, String, ℕ, ◌+◌, ◌-◌, ◌<◌, ◌≤◌, true, false, Option,
  none, some, List, [], ◌∷◌, In, arith, u64_max, ◌==◌, ==_iff, Bool-cases, string_eq,
}
use cryptosweep.Base.Dict
use cryptosweep.Base.StringSet.{contains}
use cryptosweep.Types.Address.{DepositAddressConfig}
use cryptosweep.Types.Chain.{Chain, chain_eq, chains}
use cryptosweep.Types.Decimal.{DecimalLib}
use cryptosweep.Types.Error.{Result, ok}
use cryptosweep.Types.State.{LastSeenBlock, EligibleDeposit, UsdcReceive, LiquidationResult}
use cryptosweep.Types.Traits.{BlockExplorer}
use cryptosweep.Explorer.Live.{LiveBlockExplorer, fetch_usdc_receives}
use cryptosweep.Explorer.Live.Exact.{ServesBlocks}
use cryptosweep.Explorer.Logs.{Log, receive_of_log}
use cryptosweep.Orchestrator.ChainResult.{ChainResult, latest_seen_block}
use cryptosweep.Orchestrator.Scan.{Clock, option_since_block, usdc_dust_threshold, deposit_of}
use cryptosweep.Orchestrator.Scan
use cryptosweep.Orchestrator.Scan.Detected.{run_detects}
use cryptosweep.Orchestrator.Scan.Frontier.{Settled, dust, processed, sent, refused}
use cryptosweep.Orchestrator.Pass.{DepositCheck, Found, check_of, chain_results, run}
use cryptosweep.Orchestrator.Pass.Merge.{reported, update, processed-run, records-run}
use cryptosweep.Orchestrator.Pass.Monotone.{discover-IsOfCheck}
use cryptosweep.Orchestrator.Pass.Twice.{In-tracked}

module _ {D : Type 0} (clock : Clock) (chain : Chain) where
  -- One of the chain results reports the block for the chain.
  abbrev Reports : List (Found D) → LastSeenBlock → Type 0
  Reports fs l =
      (f : Found D) × In f fs × (f.0 ≡ chain) × (latest_seen_block f.1.0 ≡ some l.block_number)

  later-Reports :
      (x : Found D) (fs : List (Found D)) (l : LastSeenBlock) → Reports fs l → Reports (x ∷ fs) l
  later-Reports x fs l (f, i, same, seen) = (f, inr i, same, seen)

  updated-cases :
      (ch : Chain) (r : ChainResult) (ds : List (EligibleDeposit D)) (fs : List (Found D))
      (old : Option LastSeenBlock) (l : LastSeenBlock) (o : Option ℕ)
      → latest_seen_block r ≡ o
      → update clock chain ch o old ≡ some l
      → Reports ((ch, (r, ds)) ∷ fs) l ⊎ (old ≡ some l)
  updated-cases ch r ds fs old l none e h = inr h
  updated-cases ch r ds fs old l (some b) e h = elim (Bool-cases (chain == ch)) [
    | inr other ↦ inr (rw other at h)
    | inl same ↦
        let new : record { block_number = b; updated_at = clock.merged_at ch } ≡ l =
          cc (rw same at h) in
        let block = ap (λ (x : LastSeenBlock). x.block_number) new in
        inl ((ch, (r, ds)), inl refl, sym ((==_iff chain ch).0 same), e ∙ ap some block)
  ]

  -- The frontier of a chain behind a pass is reported by the pass, or the old one.
  reported-cases :
      (fs : List (Found D)) (old : Option LastSeenBlock) (l : LastSeenBlock)
      → reported clock chain fs old ≡ some l
      → Reports fs l ⊎ (old ≡ some l)
  reported-cases [] old l h = inr h
  reported-cases ((ch, (r, ds)) ∷ fs) old l h =
      elim (reported-cases fs (update clock chain ch (latest_seen_block r) old) l h) [
        | inl later ↦ inl (later-Reports (ch, (r, ds)) fs l later)
        | inr here ↦ updated-cases ch r ds fs old l (latest_seen_block r) refl here
      ]

module _ {Address : Type 0} (L : DecimalLib) (parse : String → Result Address String)
    (e : LiveBlockExplorer Address) (now : ℕ) (p : DepositCheck L.Decimal)
    (ls : List (LiquidationResult L.Decimal)) (chain : Chain) (x : BlockExplorer L.Decimal) where
  open L use {Decimal, lt}

  -- What a pass makes of a receive: it is dust, or refused by the channel, or its hash is processed.
  abbrev pub IsHandled : DepositAddressConfig → UsdcReceive Decimal → Type 0
  IsHandled a r =
      (lt r.amount (usdc_dust_threshold L (check_of p chain x)) ≡ true)
      ⊎ (p.send (deposit_of L (check_of p chain x) a r) ≡ false)
      ⊎ (contains (run L p ls).1.processed_tx_hashes r.tx_hash ≡ true)

  settled-IsHandled :
      (f : Found Decimal) (a : DepositAddressConfig) (current_block : ℕ) (r : UsdcReceive Decimal)
      → In f (chain_results L p)
      → Settled L (check_of p chain x) a current_block f.1.0.processed_tx_hashes r
      → IsHandled a r
  settled-IsHandled f a current_block r i (dust is) = inl is
  settled-IsHandled f a current_block r i (refused is) = inr (inl is)
  settled-IsHandled f a current_block r i (processed was) =
      inr (inr (ground (arith, processed-run L p ls r.tx_hash, was)))
  settled-IsHandled f a current_block r i (sent is) = inr (
      inr (
        ground
          (arith, processed-run L p ls r.tx_hash, In-tracked (chain_results L p) f r.tx_hash i is)))

  of_chain :
      (f : Found Decimal)
      → Dict.get chain p.explorers ≡ some x
      → In f (chain_results L p)
      → f.0 ≡ chain
      → Scan.run L (check_of p chain x) ≡ f.1
  of_chain f has member same =
      let (y, has', from) = discover-IsOfCheck L p chains f member in
      let here : y ≡ x = cc (has', has, ap (λ ch. Dict.get ch p.explorers) same) in
      ap (λ ch. Scan.run L (check_of p ch x)) (sym same)
      ∙ ap (λ z. Scan.run L (check_of p f.0 z)) (sym here)
      ∙ sym from

  -- A pass misses no transfer of a chain whose explorer answers as the live one does, over a node
  -- that serves the logs of its blocks: each transfer to a monitored address in a block from the
  -- start of the scan up to the frontier in the state that the pass leaves is dust, or was refused
  -- by the channel, or its hash is processed in this state. The head of the chain is below the last
  -- u64, the address parses, and the log states its block.
  pub pass_detects :
      (fuel since_block current_block b : ℕ) (seen : LastSeenBlock) (a : DepositAddressConfig)
      (deposit_address : Address) (logs : ℕ → List Log) (l : Log) (r : UsdcReceive Decimal)
      → Dict.get chain p.explorers ≡ some x
      → parse a.address ≡ ok deposit_address
      → ServesBlocks L parse e deposit_address logs
      → current_block < u64_max
      → current_block + 1 - since_block < fuel
      → fetch_usdc_receives L parse e fuel now a.address since_block current_block
        ≡ some (x.fetch_usdc_receives a.address since_block current_block)
      → x.get_block_height ≡ ok current_block
      → option_since_block L (check_of p chain x) ≡ some since_block
      → Dict.get chain (run L p ls).1.last_seen_block ≡ some seen
      → In a (p.config).deposit_addresses
      → since_block ≤ b
      → b < seen.block_number
      → In l (logs b)
      → receive_of_log L now l ≡ ok r
      → r.block_number ≡ b
      → IsHandled a r
  unfolding option_since_block
  pass_detects fuel since_block current_block b seen a deposit_address logs l r has parses serves
        small m live height since left i from to stands reads states =
      elim (reported-cases p.clock chain (chain_results L p)
        (Dict.get chain (p.state).last_seen_block) seen
        (sym (records-run L p ls chain "").0 ∙ left)) [
          | inr old ↦ absurd (ground (arith, old, since))
          | inl (f, member, same, reports) ↦
              let found = of_chain f has member same in
              let checked =
                run_detects L parse e now (check_of p chain x) since_block current_block fuel
                  seen.block_number b a deposit_address logs l r parses serves small m live height
                  since (ap (λ y. latest_seen_block y.0) found ∙ reports) i from to stands reads
                  states in
              settled-IsHandled f a current_block r member (
                subst
                  (λ y. Settled L (check_of p chain x) a current_block y.0.processed_tx_hashes r)
                  found checked)
        ]
