-- ===== src/Persistence/Prune/Laws.antt =====
-- persistence.rs: what pruning removes, and what it keeps.
use cryptosweep.Base.{◌≡◌, refl, ◌↔◌, String, ℕ, ◌-◌, ◌*◌, ◌<◌, true, ◌&&◌, [], ◌∷◌}
use cryptosweep.Base.{ltb, leb, ◌==◌, string_eq, arith, In, inl, inr, Bool-cases, subst, ◌||◌}
use cryptosweep.Base.Dict
use cryptosweep.Base.Dict.{Dict, NodupKeys, keep, get-retain}
use cryptosweep.Base.StringSet.{contains, contains-remove_all}
use cryptosweep.Types.State.{BankPayment, PersistedState}
use cryptosweep.Persistence.Prune.{cutoff_at, stale_tx_hashes, prune_stale_entries}

-- The moment so many days of 86400 seconds before `now`, in nanoseconds; the epoch, where there is
-- none.
abbrev days_ago : ℕ → ℕ → ℕ
days_ago days now = now - days * 86400 * 1000000000

module _ {D : Type 0} where
  -- The entry is a record of the hash that is older than the cutoff.
  abbrev pub IsStale : ℕ → String → String × BankPayment D → Type 0
  IsStale cutoff h (_, p) = (p.deposit_tx_hash ≡ h) × (p.processed_at < cutoff)

  contains-stale_cons :
      (cutoff : ℕ) (h id : String) (p : BankPayment D) (ps : Dict String (BankPayment D))
      → contains (stale_tx_hashes cutoff ((id, p) ∷ ps)) h ≡ (
          (ltb p.processed_at cutoff && h == p.deposit_tx_hash)
          || contains (stale_tx_hashes cutoff ps) h)
  unfolding stale_tx_hashes contains
  contains-stale_cons cutoff h id p ps = ground arith

  stale_tx_hashes_iff :
      (cutoff : ℕ) (h : String) (ps : Dict String (BankPayment D))
      → (contains (stale_tx_hashes cutoff ps) h ≡ true)
        ↔ ((e : String × BankPayment D) × In e ps × IsStale cutoff h e)
  unfolding stale_tx_hashes contains
  stale_tx_hashes_iff cutoff h [] = (λ p. cc, λ (e, i, s). absurd i)
  stale_tx_hashes_iff cutoff h ((id, p) ∷ ps) = (
    λ c.
        let c' = rw contains-stale_cons at c in
        elim (Bool-cases (ltb p.processed_at cutoff && h == p.deposit_tx_hash)) [
          | inl here ↦ ((id, p), inl refl, (ground arith, ground arith))
          | inr elsewhere ↦
              let (e, i, s) = (stale_tx_hashes_iff cutoff h ps).0 (ground arith) in (e, inr i, s)
        ],
    λ (e, i, s). rw contains-stale_cons (elim i [
      | inl same ↦ let s' = subst (IsStale cutoff h) same s in ground arith
      | inr later ↦ ground (arith, (stale_tx_hashes_iff cutoff h ps).1 (e, later, s))
    ]),
  )

  -- A hash stays processed exactly if it was and no record of it is older than the cutoff.
  pub processed-prune_stale_entries :
      (now : ℕ) (s : PersistedState D) (h : String)
      → (contains (prune_stale_entries now s).processed_tx_hashes h ≡ true) ↔ (
          (contains s.processed_tx_hashes h ≡ true)
          × ¬ ((e : String × BankPayment D) × In e s.bank_payments × IsStale (cutoff_at now) h e))
  unfolding prune_stale_entries
  processed-prune_stale_entries now s h =
      let stale = stale_tx_hashes_iff (cutoff_at now) h s.bank_payments in
      rw contains-remove_all (
        λ c. (ground arith, λ e. ground (arith, stale.1 e)),
        λ (c, none_stale).
            elim (Bool-cases (contains (stale_tx_hashes (cutoff_at now) s.bank_payments) h)) [
              | inl bad ↦ absurd (none_stale (stale.0 bad))
              | inr good ↦ ground arith
            ],
      )

  -- Pruning keeps exactly the records of the last 90 days, under their ids, and leaves the frontiers
  -- alone. A hash stays processed exactly if it was and no record of it is older. No id stands twice
  -- among the records.
  pub prune_stale_entries_lem :
      (now : ℕ) (s : PersistedState D) (id h : String)
      → NodupKeys s.bank_payments
      → (Dict.get id (prune_stale_entries now s).bank_payments
          ≡ keep (λ p. leb (days_ago 90 now) p.processed_at) (Dict.get id s.bank_payments))
        × ((contains (prune_stale_entries now s).processed_tx_hashes h ≡ true) ↔ (
            (contains s.processed_tx_hashes h ≡ true)
            × ¬ (
                (e : String × BankPayment D) × In e s.bank_payments
                × IsStale (days_ago 90 now) h e)))
        × ((prune_stale_entries now s).last_seen_block ≡ s.last_seen_block)
  unfolding prune_stale_entries
  prune_stale_entries_lem now s id h unique = (
    get-retain (λ p. leb (cutoff_at now) p.processed_at) id s.bank_payments unique,
    processed-prune_stale_entries now s h,
    refl,
  )
