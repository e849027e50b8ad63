-- ===== src/Persistence/Prune/WellFormed.antt =====
-- persistence.rs: pruning keeps what holds of every state.
use cryptosweep.Base.{
  ◌≡◌, sym, ap, ◌∙◌, subst, inl, inr, String, ℕ, Bool, true, Option, none, some, [], ◌∷◌, In, arith,
  string_eq, leb, ◌==◌, ==_iff, Bool-cases,
}
use cryptosweep.Base.Dict
use cryptosweep.Base.Dict.{Dict, NodupKeys, keep, get-retain, retain-NodupKeys}
use cryptosweep.Types.State.{PersistedState, BankPayment}
use cryptosweep.Orchestrator.Pass.WellFormed.{IsWellFormed}
use cryptosweep.Persistence.Prune.{cutoff_at, prune_stale_entries}
use cryptosweep.Persistence.Prune.Laws.{IsStale, processed-prune_stale_entries}

keep-some :
    {A : Type 0} (p : A → Bool) (o : Option A) (a : A)
    → keep p o ≡ some a
    → (o ≡ some a) × (p a ≡ true)
keep-some p none a h = absurd (cc h)
keep-some p (some b) a h = elim (Bool-cases (p b)) [
  | inl good ↦
      let same : b ≡ a = cc (rw good at h) in (ap some same, subst (λ x. p x ≡ true) same good)
  | inr bad ↦ absurd (cc (rw bad at h))
]

In-get :
    {V : Type 0} (d : Dict String V) (k : String) (v : V)
    → NodupKeys d
    → In (k, v) d
    → Dict.get k d ≡ some v
unfolding Dict.get
In-get [] k v u i = absurd i
In-get ((j, w) ∷ d) k v (fresh, u) (inl here) =
    let hit : (k == j) ≡ true = (==_iff k j).1 (ap (λ x. x.0) here) in
    rw hit (ap some (sym (ap (λ x. x.1) here)))
In-get ((j, w) ∷ d) k v (fresh, u) (inr later) =
    let found = In-get d k v u later in
    elim (Bool-cases (k == j)) [
      | inl same ↦ absurd (cc (fresh, found, ap (λ x. Dict.get x d) ((==_iff k j).0 same)))
      | inr other ↦ rw other found
    ]

module _ {D : Type 0} (now : ℕ) (s : PersistedState D) (before : IsWellFormed s) where
  -- A record that pruning leaves stood there, and is not old.
  kept-fresh :
      (id : String) (b : BankPayment D)
      → Dict.get id (prune_stale_entries now s).bank_payments ≡ some b
      → (Dict.get id s.bank_payments ≡ some b) × (leb (cutoff_at now) b.processed_at ≡ true)
  unfolding prune_stale_entries
  kept-fresh id b has =
      keep-some (λ p. leb (cutoff_at now) p.processed_at) (Dict.get id s.bank_payments) b
        (sym (get-retain (λ p. leb (cutoff_at now) p.processed_at) id s.bank_payments before.unique)
          ∙ has)

  -- An old record is of another deposit than one that is kept.
  old_is_other :
      (id : String) (b : BankPayment D)
      → Dict.get id s.bank_payments ≡ some b
      → leb (cutoff_at now) b.processed_at ≡ true
      → ¬ (
          (e : String × BankPayment D) × In e s.bank_payments
          × IsStale (cutoff_at now) b.deposit_tx_hash e)
  old_is_other id b has young ((j, c), i, (hash, old)) =
      let there = In-get s.bank_payments j c before.unique i in
      let same = before.single j id c b there has hash in
      let equal : b ≡ c = cc (has, there, ap (λ k. Dict.get k s.bank_payments) same) in
      let time = ap (λ (x : BankPayment D). x.processed_at) equal in
      ground (arith, young, old, time)

  pub prune-IsWellFormed : IsWellFormed (prune_stale_entries now s)
  unfolding prune_stale_entries
  prune-IsWellFormed = record {
    unique =
        retain-NodupKeys (λ p. leb (cutoff_at now) p.processed_at) s.bank_payments before.unique;
    own = λ id b has. before.own id b (kept-fresh id b has).0;
    known = λ id b has.
        let (had, young) = kept-fresh id b has in
        (processed-prune_stale_entries now s b.deposit_tx_hash).1
          (before.known id b had, old_is_other id b had young);
    single = λ id id' b b' has has' same.
        before.single id id' b b' (kept-fresh id b has).0 (kept-fresh id' b' has').0 same;
  }
