-- ===== src/Main/Processes/Invariant.antt =====
-- main.rs: what holds of all invocations together, at every moment.
use cryptosweep.Base.{
  ◌≡◌, ◌≢◌, refl, sym, ap, ◌∙◌, subst, ◌⊎◌, inl, inr, String, ℕ, Option, none, some, ◌==◌, nat_eq,
  ==_iff, Bool-cases,
}
use cryptosweep.Types.Decimal.{DecimalLib}
use cryptosweep.Config.{CryptoSweepConfig}
use cryptosweep.Persistence.File.{Disk}
use cryptosweep.Main.{World}
use cryptosweep.Main.Processes.{
  Phase, locked, running, saved, stopped, lost, System, set_phase, at_rest, Step, takes_lock,
  is_locked_out, gives_up, loads, stops, sends, saves, fails_to_save, is_killed, Reach, here, next,
}

module _ {D : Type 0} where
  -- The invocation holds the lock.
  abbrev pub IsActive : Phase D → Type 0
  IsActive locked = Unit
  IsActive (running _) = Unit
  IsActive _ = ⊥

  -- The invocation may have sent something.
  abbrev pub HasBegun : Phase D → Type 0
  HasBegun (running _) = Unit
  HasBegun saved = Unit
  HasBegun lost = Unit
  HasBegun _ = ⊥

  -- What the invocation has sent need not be on the disk: it is still running, or it is lost.
  abbrev pub IsOpen : Phase D → Type 0
  IsOpen (running _) = Unit
  IsOpen lost = Unit
  IsOpen _ = ⊥

  pub set_phase-cases :
      (i j : ℕ) (p : Phase D) (f : ℕ → Phase D)
      → ((j ≡ i) × (set_phase i p f j ≡ p)) ⊎ ((j ≢ i) × (set_phase i p f j ≡ f j))
  set_phase-cases i j p f = elim (Bool-cases (j == i)) [
    | inl same ↦ inl ((==_iff j i).0 same, rw same refl)
    | inr other ↦ inr (λ e. cc (other, (==_iff j i).1 e), rw other refl)
  ]

module _ (L : DecimalLib) (config : CryptoSweepConfig L.Decimal) (w : ℕ → World L.Decimal)
    (h : String) where
  open L use {Decimal}

  -- At most the lock's holder is at work.
  abbrev pub IsExclusive : System Decimal → Type 0
  IsExclusive s = (i : ℕ) → IsActive (s.phase i) → s.holder ≡ some i

  pub ended-IsExclusive :
      (phase : ℕ → Phase Decimal) (holder : Option ℕ) (i : ℕ) (p : Phase Decimal)
      → ((j : ℕ) → IsActive (phase j) → holder ≡ some j)
      → IsActive (phase i)
      → ¬ IsActive p
      → (j : ℕ) → IsActive (set_phase i p phase j)
      → none ≡ some j
  ended-IsExclusive phase holder i p excl active ends j a = elim (set_phase-cases i j p phase) [
    | inl (_, e) ↦ absurd (ends (subst IsActive e a))
    | inr (other, e) ↦ absurd (other (cc (excl j (subst IsActive e a), excl i active)))
  ]

  pub step-IsExclusive :
      (s t : System Decimal) → Step L config w h s t → IsExclusive s → IsExclusive t
  step-IsExclusive s t (takes_lock i rest free) excl j a =
      elim (set_phase-cases i j locked s.phase) [
        | inl (e, _) ↦ ap some (sym e)
        | inr (_, e) ↦ absurd (cc (excl j (subst IsActive e a), free))
      ]
  step-IsExclusive s t (is_locked_out i k rest held) excl j a =
      elim (set_phase-cases i j stopped s.phase) [
        | inl (_, e) ↦ absurd (subst IsActive e a)
        | inr (_, e) ↦ excl j (subst IsActive e a)
      ]
  step-IsExclusive s t (gives_up i rest) excl j a = elim (set_phase-cases i j stopped s.phase) [
    | inl (_, e) ↦ absurd (subst IsActive e a)
    | inr (_, e) ↦ excl j (subst IsActive e a)
  ]
  step-IsExclusive s t (loads i state was reads) excl j a =
      elim (set_phase-cases i j (running state) s.phase) [
        | inl (e, _) ↦ excl j (subst IsActive (sym (ap s.phase e ∙ was)) tt)
        | inr (_, e) ↦ excl j (subst IsActive e a)
      ]
  step-IsExclusive s t (stops i was) excl j a =
      ended-IsExclusive s.phase s.holder i stopped excl (subst IsActive (sym was) tt) (λ x. x) j a
  step-IsExclusive s t (sends i state d was sent) excl j a = excl j a
  step-IsExclusive s t (saves i state was r fresh) excl j a =
      ended-IsExclusive s.phase s.holder i saved excl (subst IsActive (sym was) tt) (λ x. x) j a
  step-IsExclusive s t (fails_to_save i state e was r) excl j a =
      ended-IsExclusive s.phase s.holder i lost excl (subst IsActive (sym was) tt) (λ x. x) j a
  step-IsExclusive s t (is_killed i state d was r) excl j a =
      ended-IsExclusive s.phase s.holder i lost excl (subst IsActive (sym was) tt) (λ x. x) j a

  reach-IsExclusive :
      (disk : Disk) (s : System Decimal) → Reach L config w h (at_rest disk) s → IsExclusive s
  reach-IsExclusive disk s here i active = absurd active
  reach-IsExclusive disk s (next {t} before step) i active =
      step-IsExclusive t s step (reach-IsExclusive disk t before) i active

  -- In every state of the system that is reached from one at which nobody has begun, at most one
  -- invocation is at work: of two that hold the lock, each is the other.
  pub mutual_exclusion :
      (disk : Disk) (s : System Decimal) (i j : ℕ)
      → Reach L config w h (at_rest disk) s
      → IsActive (s.phase i)
      → IsActive (s.phase j)
      → i ≡ j
  mutual_exclusion disk s i j reach a b =
      let excl = reach-IsExclusive disk s reach in cc (excl i a, excl j b)
