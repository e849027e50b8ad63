-- ===== src/Orchestrator/Pass/Monotone.antt =====
-- orchestrator.rs: a pass does not set a chain's frontier back.
use cryptosweep.Base.{
  ◌≡◌, refl, sym, ap, ◌∙◌, subst, inl, inr, ℕ, ◌≤◌, Option, none, some, List, [], ◌∷◌, In,
  In-append, arith, ◌==◌, ==_iff, Bool-cases,
}
use cryptosweep.Base.Dict
use cryptosweep.Types.Chain.{Chain, chain_eq, chains}
use cryptosweep.Types.Decimal.{DecimalLib}
use cryptosweep.Types.Error.{ok}
use cryptosweep.Types.State.{LastSeenBlock, LiquidationResult}
use cryptosweep.Types.Traits.{BlockExplorer}
use cryptosweep.Orchestrator.ChainResult.{latest_seen_block}
use cryptosweep.Orchestrator.Scan.{Clock, option_since_block}
use cryptosweep.Orchestrator.Scan
use cryptosweep.Orchestrator.Scan.Monotone.{IsSteady, run-frontier-ge, run-height}
use cryptosweep.Orchestrator.Pass.{
  DepositCheck, Found, check_of, found_by, discover, chain_results, run,
}
use cryptosweep.Orchestrator.Pass.Merge.{reported, update, records-run}

module _ (clock : Clock) (chain : Chain) (bound : ℕ) where
  abbrev HasBlock : Option LastSeenBlock → Type 0
  HasBlock o = (l : LastSeenBlock) × (o ≡ some l) × (bound ≤ l.block_number)

  update-HasBlock :
      (ch : Chain) (o : Option ℕ) (old : Option LastSeenBlock)
      → (ch ≡ chain → (n : ℕ) → o ≡ some n → bound ≤ n)
      → HasBlock old
      → HasBlock (update clock chain ch o old)
  update-HasBlock ch none old above has = has
  update-HasBlock ch (some n) old above has = elim (Bool-cases (chain == ch)) [
    | inl same ↦ rw same (_, refl, above (sym ((==_iff chain ch).0 same)) n refl)
    | inr other ↦ rw other has
  ]

  reported-HasBlock :
      {D : Type 0} (fs : List (Found D)) (old : Option LastSeenBlock)
      → ((f : Found D) (n : ℕ)
          → In f fs
          → f.0 ≡ chain
          → latest_seen_block f.1.0 ≡ some n
          → bound ≤ n)
      → HasBlock old
      → HasBlock (reported clock chain fs old)
  reported-HasBlock [] old above has = has
  reported-HasBlock ((ch, (r, ds)) ∷ fs) old above has =
      reported-HasBlock fs (update clock chain ch (latest_seen_block r) old)
        (λ f n i. above f n (inr i))
        (update-HasBlock ch (latest_seen_block r) old
          (λ same n. above (ch, (r, ds)) n (inl refl) same) has)

module _ (L : DecimalLib) (p : DepositCheck L.Decimal) where
  open L use {Decimal}

  -- What stands among the chain results is the result of the check of its chain.
  abbrev pub IsOfCheck : Found Decimal → Type 0
  IsOfCheck f =
      (e : BlockExplorer Decimal) × (Dict.get f.0 p.explorers ≡ some e)
      × (f.1 ≡ Scan.run L (check_of p f.0 e))

  found_by-IsOfCheck :
      (ch : Chain) (o : Option (BlockExplorer Decimal)) (f : Found Decimal)
      → Dict.get ch p.explorers ≡ o
      → In f (found_by L p ch o)
      → IsOfCheck f
  found_by-IsOfCheck ch none f h i = absurd i
  found_by-IsOfCheck ch (some e) f h (inl same) = subst IsOfCheck (sym same) (e, h, refl)
  found_by-IsOfCheck ch (some e) f h (inr none_left) = absurd none_left

  pub discover-IsOfCheck :
      (cs : List Chain) (f : Found Decimal) → In f (discover L p cs) → IsOfCheck f
  unfolding discover
  discover-IsOfCheck [] f i = absurd i
  discover-IsOfCheck (ch ∷ rest) f i =
      elim (In-append f (found_by L p ch (Dict.get ch p.explorers)) (discover L p rest) i) [
        | inl here ↦ found_by-IsOfCheck ch (Dict.get ch p.explorers) f refl here
        | inr later ↦ discover-IsOfCheck rest f later
      ]

  -- The node of the chain, where it has one and answers, is not behind the block.
  abbrev pub IsSteadyFrom : Chain → ℕ → Type 0
  IsSteadyFrom chain block =
      (e : BlockExplorer Decimal) (h : ℕ)
      → Dict.get chain p.explorers ≡ some e
      → e.get_block_height ≡ ok h
      → IsSteady L (check_of p chain e) block h

  found-ge :
      (chain : Chain) (lsb : LastSeenBlock) (f : Found Decimal) (n : ℕ)
      → Dict.get chain (p.state).last_seen_block ≡ some lsb
      → IsSteadyFrom chain lsb.block_number
      → In f (chain_results L p)
      → f.0 ≡ chain
      → latest_seen_block f.1.0 ≡ some n
      → lsb.block_number ≤ n
  unfolding option_since_block
  found-ge chain lsb f n had steady i same seen =
      let (e, has, from) = discover-IsOfCheck chains f i in
      let c = check_of p chain e in
      let here : latest_seen_block (Scan.run L c).0 ≡ some n =
        subst (λ ch. latest_seen_block (Scan.run L (check_of p ch e)).0 ≡ some n) same
          (ap (λ x. latest_seen_block x.0) (sym from) ∙ seen) in
      let (h, height) = run-height L c n here in
      run-frontier-ge L c lsb.block_number h n
        (steady e h (subst (λ ch. Dict.get ch p.explorers ≡ some e) same has) height) height
        (ground (arith, had)) here

  -- A pass never sets the frontier of a chain back, where the chain's node, if it answers, is not
  -- behind the frontier: its head is a u64 and at least the required confirmations past the
  -- frontier, and none of its answers ends before the frontier.
  pub frontier-le-run :
      (ls : List (LiquidationResult Decimal)) (chain : Chain) (lsb : LastSeenBlock)
      → Dict.get chain (p.state).last_seen_block ≡ some lsb
      → IsSteadyFrom chain lsb.block_number
      → (l : LastSeenBlock) × (Dict.get chain (run L p ls).1.last_seen_block ≡ some l)
        × (lsb.block_number ≤ l.block_number)
  frontier-le-run ls chain lsb had steady =
      let (l, has, le) =
        reported-HasBlock p.clock chain lsb.block_number (chain_results L p)
          (Dict.get chain (p.state).last_seen_block)
          (λ f n i same seen. found-ge chain lsb f n had steady i same seen)
          (lsb, had, omega arith) in
      (l, (records-run L p ls chain "").0 ∙ has, le)
