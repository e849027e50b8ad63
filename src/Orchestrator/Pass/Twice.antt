-- ===== src/Orchestrator/Pass/Twice.antt =====
-- orchestrator.rs: a deposit that one pass has sent is not sent by the next.
use cryptosweep.Base.{
  ◌≡◌, ◌≢◌, ap, sym, subst, String, true, false, List, [], ◌∷◌, In-flatten-map, In-append, In, inl,
  inr, arith, Option, none, some,
}
use cryptosweep.Base.Dict
use cryptosweep.Base.StringSet.{contains}
use cryptosweep.Types.Chain.{Chain, chain_eq, chains}
use cryptosweep.Types.Decimal.{DecimalLib}
use cryptosweep.Types.State.{PersistedState, EligibleDeposit, LiquidationResult}
use cryptosweep.Types.Traits.{BlockExplorer}
use cryptosweep.Orchestrator.Scan.Fresh.{run-IsNew}
use cryptosweep.Orchestrator.Pass.{
  DepositCheck, Found, check_of, found_by, discover, chain_results, sent_deposits, run,
}
use cryptosweep.Orchestrator.Pass.Merge.{tracked, processed-run}

pub In-tracked :
    {D : Type 0} (fs : List (Found D)) (f : Found D) (h : String)
    → In f fs
    → contains f.1.0.processed_tx_hashes h ≡ true
    → tracked fs h ≡ true
In-tracked [] f h i e = absurd i
In-tracked ((c, (r, ds)) ∷ fs) f h (inl same) e =
    let e' : contains r.processed_tx_hashes h ≡ true =
      subst (λ (x : Found _). contains x.1.0.processed_tx_hashes h ≡ true) same e in
    ground arith
In-tracked ((c, (r, ds)) ∷ fs) f h (inr later) e = ground (arith, In-tracked fs f h later e)

module _ (L : DecimalLib) (p : DepositCheck L.Decimal) where
  open L use {Decimal}

  IsNewHere : EligibleDeposit Decimal → Found Decimal → Type 0
  IsNewHere d f =
      (contains (p.state).processed_tx_hashes d.tx_hash ≡ false)
      × (contains f.1.0.processed_tx_hashes d.tx_hash ≡ true)

  found_by-IsNew :
      (chain : Chain) (o : Option (BlockExplorer Decimal)) (f : Found Decimal)
      (d : EligibleDeposit Decimal)
      → In f (found_by L p chain o)
      → In d f.1.1
      → IsNewHere d f
  unfolding IsNewHere
  found_by-IsNew chain none f d i id = absurd i
  found_by-IsNew chain (some e) f d (inl same) id =
      subst (IsNewHere d) (sym same)
        (run-IsNew L (check_of p chain e) d (subst (λ (x : Found Decimal). In d x.1.1) same id))
  found_by-IsNew chain (some e) f d (inr none_left) id = absurd none_left

  discover-IsNew :
      (cs : List Chain) (f : Found Decimal) (d : EligibleDeposit Decimal)
      → In f (discover L p cs)
      → In d f.1.1
      → IsNewHere d f
  unfolding discover
  discover-IsNew [] f d i id = absurd i
  discover-IsNew (ch ∷ rest) f d i id =
      elim (In-append f (found_by L p ch (Dict.get ch p.explorers)) (discover L p rest) i) [
        | inl here ↦ found_by-IsNew ch (Dict.get ch p.explorers) f d here id
        | inr later ↦ discover-IsNew rest f d later id
      ]

  -- Every deposit that a pass sends has a hash that no former run has processed, and that one of
  -- the pass's chain results tracks.
  pub sent-IsNew :
      (d : EligibleDeposit Decimal)
      → In d (sent_deposits L p)
      → (contains (p.state).processed_tx_hashes d.tx_hash ≡ false)
        × (tracked (chain_results L p) d.tx_hash ≡ true)
  unfolding IsNewHere
  sent-IsNew d i =
      let (f, member, id) = In-flatten-map (λ (x : Found Decimal). x.1.1) d (chain_results L p) i in
      let (new, here) = discover-IsNew chains f d member id in
      (new, In-tracked (chain_results L p) f d.tx_hash member here)

module _ (L : DecimalLib) (p q : DepositCheck L.Decimal)
    (ls : List (LiquidationResult L.Decimal)) where
  -- After a pass, whatever the worker returned, a second pass that begins with its state sends no
  -- deposit that has the hash of one that was sent.
  pub run_twice :
      (d d' : EligibleDeposit L.Decimal)
      → q.state ≡ (run L p ls).1
      → In d (sent_deposits L p)
      → In d' (sent_deposits L q)
      → d'.tx_hash ≢ d.tx_hash
  run_twice d d' same sent again e =
      let (_, here) = sent-IsNew L p d sent in
      let (new, _) = sent-IsNew L q d' again in
      ground (
        arith,
        processed-run L p ls d.tx_hash,
        ap (λ (s : PersistedState L.Decimal). contains s.processed_tx_hashes d.tx_hash) same,
        ap (contains (q.state).processed_tx_hashes) e,
      )
