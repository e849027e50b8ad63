-- ===== src/Orchestrator/Pass/WellFormed.antt =====
-- orchestrator.rs: what holds of every state, and that a pass keeps it.
use mathlib.Core.List.{foldl}
use cryptosweep.Base.{
  ◌≡◌, sym, ap, ◌∙◌, subst, inl, inr, String, ◌⊎◌, true, false, some, List, [], ◌∷◌, In, arith,
  string_eq,
}
use cryptosweep.Base.Dict
use cryptosweep.Base.Dict.{NodupKeys, insert-NodupKeys}
use cryptosweep.Base.StringSet.{contains}
use cryptosweep.Types.Chain.{ethereum}
use cryptosweep.Types.Decimal.{DecimalLib}
use cryptosweep.Types.State.{PersistedState, BankPayment, LiquidationResult}
use cryptosweep.Orchestrator.Pass.{DepositCheck, chain_results, merge_chain, merge_liquidation, run}
use cryptosweep.Orchestrator.Pass.Accounted.{recorded-cases, In-liquidated}
use cryptosweep.Orchestrator.Pass.Merge.{processed-run, records-run, payments-merge_chain}

module _ {D : Type 0} where
  -- No id has two records, each record stands under its own id, its deposit is processed, and no two
  -- records are of one deposit.
  pub record IsWellFormed (s : PersistedState D) : Type 0 where
    pub unique : NodupKeys s.bank_payments
    pub own : (id : String) (b : BankPayment D) → Dict.get id s.bank_payments ≡ some b → b.id ≡ id
    pub known :
        (id : String) (b : BankPayment D)
        → Dict.get id s.bank_payments ≡ some b
        → contains s.processed_tx_hashes b.deposit_tx_hash ≡ true
    pub single :
        (id id' : String) (b b' : BankPayment D)
        → Dict.get id s.bank_payments ≡ some b
        → Dict.get id' s.bank_payments ≡ some b'
        → b.deposit_tx_hash ≡ b'.deposit_tx_hash
        → id ≡ id'

  -- Results of deposits that are new to the state, each with the record of its deposit; those of one
  -- deposit have one id.
  pub record AreFresh (s : PersistedState D) (ls : List (LiquidationResult D)) : Type 0 where
    pub matching : (l : LiquidationResult D) → In l ls → (l.payment).deposit_tx_hash ≡ l.tx_hash
    pub fresh :
        (l : LiquidationResult D) → In l ls → contains s.processed_tx_hashes l.tx_hash ≡ false
    pub same_id :
        (l m : LiquidationResult D)
        → In l ls
        → In m ls
        → l.tx_hash ≡ m.tx_hash
        → l.payment.id ≡ m.payment.id

  merge-NodupKeys :
      (ls : List (LiquidationResult D)) (s : PersistedState D)
      → NodupKeys s.bank_payments
      → NodupKeys (foldl merge_liquidation s ls).bank_payments
  unfolding merge_liquidation
  merge-NodupKeys [] s u = u
  merge-NodupKeys (l ∷ ls) s u =
      merge-NodupKeys ls (merge_liquidation s l)
        (insert-NodupKeys l.payment.id l.payment s.bank_payments u)

module _ (L : DecimalLib) (p : DepositCheck L.Decimal) (ls : List (LiquidationResult L.Decimal))
    (before : IsWellFormed p.state) (are : AreFresh p.state ls) where
  open L use {Decimal}

  run-NodupKeys : NodupKeys (run L p ls).1.bank_payments
  unfolding run
  run-NodupKeys =
      merge-NodupKeys ls (foldl (merge_chain p.clock) (p.state, []) (chain_results L p)).0 (
        subst NodupKeys (sym (payments-merge_chain p.clock (chain_results L p) p.state []))
          before.unique)

  -- A record that a pass leaves stood there before, or is that of a result.
  found-cases :
      (id : String) (b : BankPayment Decimal)
      → Dict.get id (run L p ls).1.bank_payments ≡ some b
      → (Dict.get id (p.state).bank_payments ≡ some b)
        ⊎ ((l : LiquidationResult Decimal) × In l ls × (l.payment.id ≡ id) × (b ≡ l.payment))
  found-cases id b has =
      let stands = sym (records-run L p ls ethereum id).1 ∙ has in
      elim (recorded-cases id ls (Dict.get id (p.state).bank_payments)) [
        | inl old ↦ inl (sym old ∙ stands)
        | inr (b', e, (l, i, same, from)) ↦
            let equal : b ≡ b' = cc (stands, e) in inr (l, i, same, equal ∙ from)
      ]

  run-known :
      (id : String) (b : BankPayment Decimal)
      → Dict.get id (run L p ls).1.bank_payments ≡ some b
      → contains (run L p ls).1.processed_tx_hashes b.deposit_tx_hash ≡ true
  run-known id b has = elim (found-cases id b has) [
    | inl old ↦ ground (arith, processed-run L p ls b.deposit_tx_hash, before.known id b old)
    | inr (l, i, same, from) ↦
        let hash : b.deposit_tx_hash ≡ l.tx_hash =
          ap (λ (x : BankPayment Decimal). x.deposit_tx_hash) from ∙ are.matching l i in
        ap (contains (run L p ls).1.processed_tx_hashes) hash
        ∙ ground (arith, processed-run L p ls l.tx_hash, In-liquidated l ls i)
  ]

  -- A record from before and one of a result are of different deposits.
  old-new :
      (id : String) (b : BankPayment Decimal) (l : LiquidationResult Decimal)
      → Dict.get id (p.state).bank_payments ≡ some b
      → In l ls
      → b.deposit_tx_hash ≡ l.payment.deposit_tx_hash
      → ⊥
  old-new id b l old i same = cc (
    before.known id b old,
    are.fresh l i,
    ap (contains (p.state).processed_tx_hashes) (same ∙ are.matching l i),
  )

  run-single :
      (id id' : String) (b b' : BankPayment Decimal)
      → Dict.get id (run L p ls).1.bank_payments ≡ some b
      → Dict.get id' (run L p ls).1.bank_payments ≡ some b'
      → b.deposit_tx_hash ≡ b'.deposit_tx_hash
      → id ≡ id'
  run-single id id' b b' has has' same =
      let hash : (x y : BankPayment Decimal) → x ≡ y → x.deposit_tx_hash ≡ y.deposit_tx_hash =
        λ x y e. ap (λ (z : BankPayment Decimal). z.deposit_tx_hash) e in
      elim (found-cases id b has) [
        | inl old ↦ elim (found-cases id' b' has') [
          | inl old' ↦ before.single id id' b b' old old' same
          | inr (l, i, _, from) ↦ absurd (old-new id b l old i (same ∙ hash _ _ from))
        ]
        | inr (l, i, here, from) ↦ elim (found-cases id' b' has') [
          | inl old' ↦ absurd (old-new id' b' l old' i (sym same ∙ hash _ _ from))
          | inr (m, j, there, from') ↦
              sym here
              ∙ are.same_id l m i j (
                  sym (are.matching l i)
                  ∙ sym (hash _ _ from)
                  ∙ same
                  ∙ hash _ _ from'
                  ∙ are.matching m j)
              ∙ there
        ]
      ]

  pub run-IsWellFormed : IsWellFormed (run L p ls).1
  run-IsWellFormed = record {
    unique = run-NodupKeys;
    own = λ id b has. elim (found-cases id b has) [
      | inl old ↦ before.own id b old
      | inr (l, i, same, from) ↦ ap (λ (x : BankPayment Decimal). x.id) from ∙ same
    ];
    known = run-known;
    single = run-single;
  }
