-- ===== src/Orchestrator/Pass/Order.antt =====
-- orchestrator.rs: the order in which the worker's jobs end does not matter to the state.
use mathlib.Core.List.{Permᴰ}
use cryptosweep.Base.{
  ◌≡◌, refl, sym, ap, ◌∙◌, inl, inr, String, Option, some, List, In, arith, ◌==◌, string_eq, ==_iff,
  if◌then◌else◌, Bool-cases,
}
use cryptosweep.Base.Dict
use cryptosweep.Base.StringSet.{contains}
use cryptosweep.Types.Chain.{Chain, ethereum, chain_eq}
use cryptosweep.Types.Decimal.{DecimalLib}
use cryptosweep.Types.State.{PersistedState, LiquidationResult, BankPayment}
use cryptosweep.Orchestrator.Pass.{DepositCheck, run}
use cryptosweep.Orchestrator.Pass.Errors.{errors-run}
use cryptosweep.Orchestrator.Pass.Merge.{liquidated, recorded, processed-run, records-run}

-- What the program reads of a state: the hashes, the records and the frontiers, by key.
pub record SameState {D : Type 0} (s t : PersistedState D) : Type 0 where
  pub hashes : (h : String) → contains s.processed_tx_hashes h ≡ contains t.processed_tx_hashes h
  pub records : (id : String) → Dict.get id s.bank_payments ≡ Dict.get id t.bank_payments
  pub frontiers :
      (chain : Chain) → Dict.get chain s.last_seen_block ≡ Dict.get chain t.last_seen_block

module _ {D : Type 0} where
  perm-In :
      {xs ys : List (LiquidationResult D)} (x : LiquidationResult D)
      → Permᴰ xs ys
      → In x ys
      → In x xs
  perm-In x Permᴰ.nil i = i
  perm-In x (Permᴰ.cons e p) (inl same) = inl (same ∙ sym e)
  perm-In x (Permᴰ.cons e p) (inr later) = inr (perm-In x p later)
  perm-In x (Permᴰ.swap e f) (inl same) = inr (inl (same ∙ sym f))
  perm-In x (Permᴰ.swap e f) (inr (inl same)) = inl (same ∙ sym e)
  perm-In x (Permᴰ.swap e f) (inr (inr later)) = inr (inr later)
  perm-In x (Permᴰ.trans p q) i = perm-In x p (perm-In x q i)

  -- Results with the same id have the same record.
  abbrev pub AgreeOnIds : List (LiquidationResult D) → Type 0
  AgreeOnIds ls =
      (a b : LiquidationResult D)
      → In a ls
      → In b ls
      → a.payment.id ≡ b.payment.id
      → a.payment ≡ b.payment

  perm-liquidated :
      {xs ys : List (LiquidationResult D)} (h : String)
      → Permᴰ xs ys
      → liquidated xs h ≡ liquidated ys h
  perm-liquidated h Permᴰ.nil = refl
  perm-liquidated h (Permᴰ.cons e p) =
      let e' = ap (λ (l : LiquidationResult D). l.tx_hash) e in ground (arith, perm-liquidated h p)
  perm-liquidated h (Permᴰ.swap e f) =
      let e' = ap (λ (l : LiquidationResult D). l.tx_hash) e in
      let f' = ap (λ (l : LiquidationResult D). l.tx_hash) f in ground arith
  perm-liquidated h (Permᴰ.trans p q) = perm-liquidated h p ∙ perm-liquidated h q

  swap-two :
      (id : String) (a b : BankPayment D) (old : Option (BankPayment D))
      → (a.id ≡ b.id → a ≡ b)
      → (if id == b.id then some b else if id == a.id then some a else old)
        ≡ (if id == a.id then some a else if id == b.id then some b else old)
  swap-two id a b old agree = elim (Bool-cases (id == a.id)) [
    | inr other ↦ rw other refl
    | inl first ↦ elim (Bool-cases (id == b.id)) [
      | inr other ↦ rw (first, other) refl
      | inl second ↦
          rw (first, second)
            (ap some (sym (agree (sym ((==_iff id a.id).0 first) ∙ (==_iff id b.id).0 second))))
    ]
  ]

  perm-recorded :
      {xs ys : List (LiquidationResult D)} (id : String) (old : Option (BankPayment D))
      → Permᴰ xs ys
      → AgreeOnIds xs
      → recorded id xs old ≡ recorded id ys old
  perm-recorded id old Permᴰ.nil agree = refl
  perm-recorded id old (Permᴰ.cons {a} {b} {l₁} {l₂} e p) agree =
      perm-recorded id (if id == a.payment.id then some a.payment else old) p
        (λ x y i j. agree x y (inr i) (inr j))
      ∙ ap
          (λ (l : LiquidationResult D).
            recorded id l₂ (if id == l.payment.id then some l.payment else old))
          e
  perm-recorded id old (Permᴰ.swap {a} {b} {a'} {b'} {l} e f) agree =
      ap (recorded id l)
        (swap-two id a.payment b.payment old (agree a b (inl refl) (inr (inl refl))))
      ∙ ap
          (λ (x : LiquidationResult D). recorded id l (
            if id == x.payment.id
            then some x.payment
            else if id == b.payment.id
            then some b.payment
            else old))
          e
      ∙ ap
          (λ (x : LiquidationResult D). recorded id l (
            if id == b'.payment.id
            then some b'.payment
            else if id == x.payment.id
            then some x.payment
            else old))
          f
  perm-recorded id old (Permᴰ.trans p q) agree =
      perm-recorded id old p agree
      ∙ perm-recorded id old q (λ x y i j. agree x y (perm-In x p i) (perm-In y p j))

module _ (L : DecimalLib) (p : DepositCheck L.Decimal) where
  -- A pass whose worker returns the same results in another order reports the same errors, and
  -- leaves the same hashes, records and frontiers. Results with the same id have the same record.
  pub run-perm :
      (ls ls' : List (LiquidationResult L.Decimal))
      → Permᴰ ls ls'
      → AgreeOnIds ls
      → ((run L p ls).0 ≡ (run L p ls').0) × SameState (run L p ls).1 (run L p ls').1
  run-perm ls ls' perm agree = (
    errors-run L p ls ∙ sym (errors-run L p ls'),
    record {
      hashes = λ h.
          ground (arith, processed-run L p ls h, processed-run L p ls' h, perm-liquidated h perm);
      records = λ id.
          (records-run L p ls ethereum id).1
          ∙ perm-recorded id (Dict.get id (p.state).bank_payments) perm agree
          ∙ sym (records-run L p ls' ethereum id).1;
      frontiers = λ chain. (records-run L p ls chain "").0 ∙ sym (records-run L p ls' chain "").0;
    },
  )
