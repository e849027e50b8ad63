-- ===== src/Orchestrator/Pass/Merge.antt =====
-- orchestrator.rs: the state after a pass.
use mathlib.Core.List.{foldl}
use cryptosweep.Base.{
  ◌≡◌, refl, ap, ◌∙◌, String, ℕ, Bool, false, ◌||◌, Option, none, some, List, [], ◌∷◌,
}
use cryptosweep.Base.{◌==◌, string_eq, if◌then◌else◌, arith}
use cryptosweep.Base.Dict
use cryptosweep.Base.Dict.{Dict, get-insert}
use cryptosweep.Base.StringSet.{contains, contains-insert, contains-insert_all}
use cryptosweep.Types.Chain.{Chain, chain_eq}
use cryptosweep.Types.Decimal.{DecimalLib}
use cryptosweep.Types.State.{LastSeenBlock, PersistedState, LiquidationResult, BankPayment}
use cryptosweep.Orchestrator.ChainResult.{latest_seen_block}
use cryptosweep.Orchestrator.Scan.{Clock}
use cryptosweep.Orchestrator.Pass.{
  DepositCheck, Found, record_frontier, merge_chain, merge_liquidation, chain_results, run,
}

abbrev pub update : Clock → Chain → Chain → Option ℕ → Option LastSeenBlock → Option LastSeenBlock
update clock chain ch none old = old
update clock chain ch (some b) old =
    if chain == ch then some (record { block_number = b; updated_at = clock.merged_at ch }) else old

get-record_frontier :
    (clock : Clock) (chain ch : Chain) (o : Option ℕ) (seen : Dict Chain LastSeenBlock)
    → Dict.get chain (record_frontier clock ch o seen)
      ≡ update clock chain ch o (Dict.get chain seen)
get-record_frontier clock chain ch none seen = refl
get-record_frontier clock chain ch (some b) seen = rw get-insert

module _ {D : Type 0} where
  -- The hash is tracked by one of the chain results.
  abbrev pub tracked : List (Found D) → String → Bool
  tracked [] h = false
  tracked ((_, (r, _)) ∷ fs) h = contains r.processed_tx_hashes h || tracked fs h

  -- The hash is that of one of the worker's results.
  abbrev pub liquidated : List (LiquidationResult D) → String → Bool
  liquidated [] h = false
  liquidated (l ∷ ls) h = h == l.tx_hash || liquidated ls h

  -- The frontier of a chain after the results: the last one that is reported, or the old one.
  abbrev pub reported : Clock → Chain → List (Found D) → Option LastSeenBlock → Option LastSeenBlock
  reported clock chain [] old = old
  reported clock chain ((ch, (r, _)) ∷ fs) old =
      reported clock chain fs (update clock chain ch (latest_seen_block r) old)

  -- The record under an id: that of the last result with this id, or the old one.
  abbrev pub recorded :
      String → List (LiquidationResult D) → Option (BankPayment D) → Option (BankPayment D)
  recorded id [] old = old
  recorded id (l ∷ ls) old = recorded id ls (if id == l.payment.id then some l.payment else old)

  contains-merge_chain :
      (clock : Clock) (fs : List (Found D)) (s : PersistedState D) (es : List String) (h : String)
      → contains (foldl (merge_chain clock) (s, es) fs).0.processed_tx_hashes h
        ≡ (tracked fs h || contains s.processed_tx_hashes h)
  unfolding merge_chain
  contains-merge_chain clock [] s es h = refl
  contains-merge_chain clock ((ch, (r, ds)) ∷ fs) s es h =
      contains-merge_chain clock fs (merge_chain clock (s, es) (ch, (r, ds))).0
        (merge_chain clock (s, es) (ch, (r, ds))).1 h
      ∙ rw contains-insert_all (ground arith)

  pub payments-merge_chain :
      (clock : Clock) (fs : List (Found D)) (s : PersistedState D) (es : List String)
      → (foldl (merge_chain clock) (s, es) fs).0.bank_payments ≡ s.bank_payments
  unfolding merge_chain
  payments-merge_chain clock [] s es = refl
  payments-merge_chain clock ((ch, (r, ds)) ∷ fs) s es =
      payments-merge_chain clock fs (merge_chain clock (s, es) (ch, (r, ds))).0
        (merge_chain clock (s, es) (ch, (r, ds))).1

  seen-merge_chain :
      (clock : Clock) (chain : Chain) (fs : List (Found D)) (s : PersistedState D)
      (es : List String)
      → Dict.get chain (foldl (merge_chain clock) (s, es) fs).0.last_seen_block
        ≡ reported clock chain fs (Dict.get chain s.last_seen_block)
  unfolding merge_chain
  seen-merge_chain clock chain [] s es = refl
  seen-merge_chain clock chain ((ch, (r, ds)) ∷ fs) s es =
      seen-merge_chain clock chain fs (merge_chain clock (s, es) (ch, (r, ds))).0
        (merge_chain clock (s, es) (ch, (r, ds))).1
      ∙ ap (reported clock chain fs)
          (get-record_frontier clock chain ch (latest_seen_block r) s.last_seen_block)

  contains-merge_liquidation :
      (ls : List (LiquidationResult D)) (s : PersistedState D) (h : String)
      → contains (foldl merge_liquidation s ls).processed_tx_hashes h
        ≡ (liquidated ls h || contains s.processed_tx_hashes h)
  unfolding merge_liquidation
  contains-merge_liquidation [] s h = refl
  contains-merge_liquidation (l ∷ ls) s h =
      contains-merge_liquidation ls (merge_liquidation s l) h ∙ rw contains-insert (ground arith)

  payments-merge_liquidation :
      (id : String) (ls : List (LiquidationResult D)) (s : PersistedState D)
      → Dict.get id (foldl merge_liquidation s ls).bank_payments
        ≡ recorded id ls (Dict.get id s.bank_payments)
  unfolding merge_liquidation
  payments-merge_liquidation id [] s = refl
  payments-merge_liquidation id (l ∷ ls) s =
      payments-merge_liquidation id ls (merge_liquidation s l) ∙ ap (recorded id ls) (rw get-insert)

  seen-merge_liquidation :
      (ls : List (LiquidationResult D)) (s : PersistedState D)
      → (foldl merge_liquidation s ls).last_seen_block ≡ s.last_seen_block
  unfolding merge_liquidation
  seen-merge_liquidation [] s = refl
  seen-merge_liquidation (l ∷ ls) s = seen-merge_liquidation ls (merge_liquidation s l)

module _ (L : DecimalLib) (p : DepositCheck L.Decimal)
    (ls : List (LiquidationResult L.Decimal)) where
  -- After a pass a hash is processed exactly if it was before, if a chain's check tracks it or if
  -- the worker returns a result for it.
  pub processed-run :
      (h : String)
      → contains (run L p ls).1.processed_tx_hashes h ≡ (
          liquidated ls h
          || (tracked (chain_results L p) h || contains (p.state).processed_tx_hashes h))
  unfolding run
  processed-run h =
      let merged = foldl (merge_chain p.clock) (p.state, []) (chain_results L p) in
      contains-merge_liquidation ls merged.0 h
      ∙ ap (λ b. liquidated ls h || b)
          (contains-merge_chain p.clock (chain_results L p) p.state [] h)

  -- After a pass a chain's frontier is the one that its check reports, or else the old one; and
  -- under each id stands the record of the last result with this id, or else the old record.
  pub records-run :
      (chain : Chain) (id : String)
      → (Dict.get chain (run L p ls).1.last_seen_block
          ≡ reported p.clock chain (chain_results L p) (Dict.get chain (p.state).last_seen_block))
        × (Dict.get id (run L p ls).1.bank_payments
            ≡ recorded id ls (Dict.get id (p.state).bank_payments))
  unfolding run
  records-run chain id =
      let merged = foldl (merge_chain p.clock) (p.state, []) (chain_results L p) in
      (
        ap (Dict.get chain) (seen-merge_liquidation ls merged.0)
            ∙ seen-merge_chain p.clock chain (chain_results L p) p.state [],
        payments-merge_liquidation id ls merged.0
            ∙ ap (λ b. recorded id ls (Dict.get id b))
                (payments-merge_chain p.clock (chain_results L p) p.state []),
      )
