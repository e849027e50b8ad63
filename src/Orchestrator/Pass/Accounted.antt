-- ===== src/Orchestrator/Pass/Accounted.antt =====
-- orchestrator.rs with cbworker.rs: what a pass sends to the worker is accounted for in the state.
use cryptosweep.Base.{
  ◌≡◌, refl, sym, ap, ◌∙◌, subst, inl, inr, String, ℕ, ◌⊎◌, ◌<◌, true, Option, some, List, [], ◌∷◌,
  In, All-at, ◌==◌, string_eq, ==_iff, Bool-cases, if◌then◌else◌, arith,
}
use cryptosweep.Base.Dict
use cryptosweep.Base.StringSet.{contains, count}
use cryptosweep.Types.Decimal.{DecimalLib}
use cryptosweep.Types.State.{
  BankPayment, BankPaymentOutcome, EligibleDeposit, LiquidationResult, make_id,
}
use cryptosweep.Types.Chain.{ethereum}
use cryptosweep.Worker.Job.{Event, Runs}
use cryptosweep.Worker.Liquidate.{CbWorker, liquidate_pipeline, record_of}
use cryptosweep.Worker.Pool.{Pool, initial, Reach, IsFinished}
use cryptosweep.Worker.Pool.Conservation.{
  result_hashes, deposit_hashes, IsGenuine, IsOneOf, liquidate_one-Runs, run_conserves,
}
use cryptosweep.Orchestrator.Pass.{DepositCheck, sent_deposits, run}
use cryptosweep.Orchestrator.Pass.Merge.{liquidated, recorded, processed-run, records-run}

module _ {D : Type 0} where
  count-In :
      (d : EligibleDeposit D) (ds : List (EligibleDeposit D))
      → In d ds
      → 0 < count d.tx_hash (deposit_hashes ds)
  unfolding count
  count-In d [] i = absurd i
  count-In d (x ∷ ds) (inl same) =
      let e : d.tx_hash ≡ x.tx_hash = ap (λ (y : EligibleDeposit D). y.tx_hash) same in ground arith
  count-In d (x ∷ ds) (inr later) = ground (arith, count-In d ds later)

  In-count :
      (h : String) (ls : List (LiquidationResult D))
      → 0 < count h (result_hashes ls)
      → (l : LiquidationResult D) × In l ls × (l.tx_hash ≡ h)
  unfolding count
  In-count h [] pos = absurd (omega arith)
  In-count h (l ∷ ls) pos = elim (Bool-cases (h == l.tx_hash)) [
    | inl same ↦ (l, inl refl, sym ((==_iff h l.tx_hash).0 same))
    | inr other ↦ let (m, i, e) = In-count h ls (ground arith) in (m, inr i, e)
  ]

  pub In-liquidated :
      (l : LiquidationResult D) (ls : List (LiquidationResult D))
      → In l ls
      → liquidated ls l.tx_hash ≡ true
  In-liquidated l [] i = absurd i
  In-liquidated l (x ∷ ls) (inl same) =
      let e : l.tx_hash ≡ x.tx_hash = ap (λ (y : LiquidationResult D). y.tx_hash) same in
      ground arith
  In-liquidated l (x ∷ ls) (inr later) = ground (arith, In-liquidated l ls later)

  -- The record under an id comes from a result, where it does not come from before.
  abbrev pub Origin : String → List (LiquidationResult D) → BankPayment D → Type 0
  Origin id ls b = (l : LiquidationResult D) × In l ls × (l.payment.id ≡ id) × (b ≡ l.payment)

  abbrev pub Stands : String → List (LiquidationResult D) → Option (BankPayment D) → Type 0
  Stands id ls o = (b : BankPayment D) × (o ≡ some b) × Origin id ls b

  later-Stands :
      (id : String) (l : LiquidationResult D) (ls : List (LiquidationResult D))
      (o : Option (BankPayment D))
      → Stands id ls o
      → Stands id (l ∷ ls) o
  later-Stands id l ls o (b, e, (m, i, same, from)) = (b, e, (m, inr i, same, from))

  here-Stands :
      (id : String) (l : LiquidationResult D) (ls : List (LiquidationResult D))
      (o : Option (BankPayment D))
      → l.payment.id ≡ id
      → o ≡ some l.payment
      → Stands id (l ∷ ls) o
  here-Stands id l ls o same e = (l.payment, e, (l, inl refl, same, refl))

  pub recorded-cases :
      (id : String) (ls : List (LiquidationResult D)) (old : Option (BankPayment D))
      → (recorded id ls old ≡ old) ⊎ Stands id ls (recorded id ls old)
  recorded-cases id [] old = inl refl
  recorded-cases id (l ∷ ls) old =
      elim (recorded-cases id ls (if id == l.payment.id then some l.payment else old)) [
        | inr stands ↦ inr (later-Stands id l ls _ stands)
        | inl kept ↦ elim (Bool-cases (id == l.payment.id)) [
          | inl same ↦
              inr (
                here-Stands id l ls _ (sym ((==_iff id l.payment.id).0 same)) (kept ∙ rw same refl))
          | inr other ↦ inl (kept ∙ rw other refl)
        ]
      ]

  recorded-In :
      (id : String) (l : LiquidationResult D) (ls : List (LiquidationResult D))
      (old : Option (BankPayment D))
      → In l ls
      → l.payment.id ≡ id
      → Stands id ls (recorded id ls old)
  recorded-In id l [] old i same = absurd i
  recorded-In id l (x ∷ ls) old (inr later) same =
      later-Stands id x ls _ (recorded-In id l ls _ later same)
  recorded-In id l (x ∷ ls) old (inl here) same =
      let named : x.payment.id ≡ id =
        subst (λ (y : LiquidationResult D). y.payment.id ≡ id) here same in
      let hit : (id == x.payment.id) ≡ true = (==_iff id x.payment.id).1 (sym named) in
      elim (recorded-cases id ls (if id == x.payment.id then some x.payment else old)) [
        | inr stands ↦ later-Stands id x ls _ stands
        | inl kept ↦ here-Stands id x ls _ named (kept ∙ rw hit refl)
      ]

module _ (L : DecimalLib) (p : DepositCheck L.Decimal) (w : CbWorker L.Decimal)
    (format_date : ℕ → String) (deposits : List (EligibleDeposit L.Decimal))
    (pool : Pool L.Decimal) where
  open L use {Decimal}

  abbrev pub id_of : EligibleDeposit Decimal → String
  id_of d = make_id format_date d.processed_at d.tx_hash

  -- The record is that of a run of a job for one of the deposits, under the id.
  abbrev pub IsRecord : String → BankPayment Decimal → Type 0
  IsRecord id b =
      (d : EligibleDeposit Decimal) × (o : BankPaymentOutcome Decimal) × (t : List (Event Decimal))
      × In d deposits
      × (id_of d ≡ id)
      × Runs (liquidate_pipeline L w d) t o
      × (b ≡ (record_of L w format_date d o).payment)

  -- The hash is processed, and an audit record stands under the id of a deposit with this hash.
  abbrev pub IsAccounted : String → Type 0
  IsAccounted h =
      (contains (run L p pool.results).1.processed_tx_hashes h ≡ true)
      × ((d : EligibleDeposit Decimal) × (b : BankPayment Decimal) × In d deposits
          × (d.tx_hash ≡ h)
          × (Dict.get (id_of d) (run L p pool.results).1.bank_payments ≡ some b)
          × IsRecord (id_of d) b)

  pub genuine-IsRecord :
      (l : LiquidationResult Decimal)
      → IsGenuine L w format_date (IsOneOf L w format_date deposits) l
      → (d : EligibleDeposit Decimal) × In d deposits
        × (d.tx_hash ≡ l.tx_hash)
        × (id_of d ≡ l.payment.id)
        × IsRecord l.payment.id l.payment
  genuine-IsRecord l (d, t, member, runs) =
      let (o, runs', same) = liquidate_one-Runs L w format_date d t l runs in
      let id_same : id_of d ≡ l.payment.id =
        sym (ap (λ (x : LiquidationResult Decimal). x.payment.id) same) in
      (
        d,
        member,
        sym (ap (λ (x : LiquidationResult Decimal). x.tx_hash) same),
        id_same,
        (d, o, t, member, id_same, runs', ap (λ (x : LiquidationResult Decimal). x.payment) same),
      )

  -- When the worker has processed what a pass sends, in whatever order the deposits arrived, the jobs
  -- interleaved and the services answered, then the hash of every deposit that was sent is
  -- processed, and an audit record of a run of a job stands under the id of a deposit with this
  -- hash.
  pub run-IsAccounted :
      (d : EligibleDeposit Decimal)
      → ((x : EligibleDeposit Decimal) → In x (sent_deposits L p) → In x deposits)
      → Reach L w format_date (initial deposits) pool
      → IsFinished L w format_date pool
      → In d (sent_deposits L p)
      → IsAccounted d.tx_hash
  run-IsAccounted d arrive reach finished sent =
      let (balance, genuine) = run_conserves L w format_date deposits pool reach finished in
      let (l, i, hash) =
        In-count d.tx_hash pool.results
          (subst (λ n. 0 < n) (sym (balance d.tx_hash)) (count-In d deposits (arrive d sent))) in
      let gen = All-at (IsGenuine L w format_date (IsOneOf L w format_date deposits)) in
      let (d', member, hash', named, _) = genuine-IsRecord l (gen l pool.results genuine i) in
      let (b, stands, (m, im, same, from)) =
        recorded-In (id_of d') l pool.results (Dict.get (id_of d') (p.state).bank_payments) i
          (sym named) in
      let (_, _, _, _, rec) = genuine-IsRecord m (gen m pool.results genuine im) in
      (
        ground (
          arith,
          processed-run L p pool.results d.tx_hash,
          In-liquidated l pool.results i,
          ap (liquidated pool.results) hash,
        ),
        (
          d',
          b,
          member,
          hash' ∙ hash,
          (records-run L p pool.results ethereum (id_of d')).1 ∙ stands,
          subst (λ x. IsRecord x b) same (subst (IsRecord m.payment.id) (sym from) rec),
        ),
      )
