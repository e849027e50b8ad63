-- ===== src/Main/Processes/Sound.antt =====
-- main.rs: what the invocations know of the disk and of each other.
use cryptosweep.Base.{
  ◌≡◌, ◌≢◌, refl, sym, ◌∙◌, subst, ◌⊎◌, inl, inr, String, ℕ, Option, none, List, In, string_eq,
}
use cryptosweep.Types.Decimal.{DecimalLib}
use cryptosweep.Types.Error.{ok}
use cryptosweep.Types.State.{PersistedState, EligibleDeposit}
use cryptosweep.Config.{CryptoSweepConfig}
use cryptosweep.Coinbase.Auth.{JwtLib}
use cryptosweep.Orchestrator.Pass.{sent_deposits}
use cryptosweep.Persistence.File.{Disk, Serde, read_to_string, load_state}
use cryptosweep.Main.{World, pass_of}
use cryptosweep.Main.History.{IsProcessedAt}
use cryptosweep.Main.Processes.{
  Phase, idle, locked, running, saved, stopped, lost, System, set_phase,
}
use cryptosweep.Main.Processes.Invariant.{
  IsActive, HasBegun, IsOpen, set_phase-cases, IsExclusive, ended-IsExclusive,
}

module _ {D : Type 0} where
  abbrev IsRunning : Phase D → Type 0
  IsRunning (running _) = Unit
  IsRunning _ = ⊥

  pub running-old :
      (i j : ℕ) (p : Phase D) (f : ℕ → Phase D) (state : PersistedState D)
      → ¬ IsRunning p
      → set_phase i p f j ≡ running state
      → f j ≡ running state
  running-old i j p f state ends e = elim (set_phase-cases i j p f) [
    | inl (_, e') ↦ absurd (ends (subst IsRunning (sym e ∙ e') tt))
    | inr (_, e') ↦ sym e' ∙ e
  ]

  pub open-lost :
      (phase : Phase D)
      → IsOpen phase
      → ((state : PersistedState D) × (phase ≡ running state)) ⊎ (phase ≡ lost)
  open-lost idle o = absurd o
  open-lost locked o = absurd o
  open-lost saved o = absurd o
  open-lost stopped o = absurd o
  open-lost (running state) o = inl (state, refl)
  open-lost lost o = inr refl

  -- What was sent stays with invocations that have begun.
  pub begun-set :
      (i : ℕ) (p : Phase D) (f : ℕ → Phase D) (log : List (ℕ × EligibleDeposit D))
      → (HasBegun (f i) → HasBegun p)
      → ((j : ℕ) (d : EligibleDeposit D) → In (j, d) log → HasBegun (f j))
      → (j : ℕ) (d : EligibleDeposit D) → In (j, d) log
      → HasBegun (set_phase i p f j)
  begun-set i p f log goes begun j d sent = elim (set_phase-cases i j p f) [
    | inl (same, e) ↦
        subst HasBegun (sym e) (goes (subst (λ k. HasBegun (f k)) same (begun j d sent)))
    | inr (_, e) ↦ subst HasBegun (sym e) (begun j d sent)
  ]

module _ (L : DecimalLib) (J : JwtLib) (config : CryptoSweepConfig L.Decimal)
    (w : ℕ → World L.Decimal) (h : String) (serde : Serde L.Decimal) where
  open L use {Decimal}

  -- A running invocation holds the state that is on the disk, and has sent only what its pass sends.
  -- A deposit of the hash that was sent is processed on the disk, unless its sender is open.
  pub record IsSound (s : System Decimal) : Type 0 where
    pub exclusive : IsExclusive L config w h s
    pub current :
        (i : ℕ) (state : PersistedState Decimal)
        → s.phase i ≡ running state
        → load_state serde (read_to_string none config.state_file s.disk) ≡ ok state
    pub genuine :
        (i : ℕ) (state : PersistedState Decimal) (d : EligibleDeposit Decimal)
        → s.phase i ≡ running state
        → In (i, d) s.log
        → In d (sent_deposits L (pass_of L config (w i) state))
    pub begun : (i : ℕ) (d : EligibleDeposit Decimal) → In (i, d) s.log → HasBegun (s.phase i)
    pub recorded :
        (i : ℕ) (d : EligibleDeposit Decimal)
        → In (i, d) s.log
        → d.tx_hash ≡ h
        → IsOpen (s.phase i) ⊎ IsProcessedAt L J config serde h s.disk

  -- Where nobody holds the lock, nobody runs.
  pub free-running :
      (s : System Decimal) (i : ℕ) (state : PersistedState Decimal)
      → IsExclusive L config w h s
      → s.holder ≡ none
      → s.phase i ≢ running state
  free-running s i state excl free e = cc (free, excl i (subst IsActive (sym e) tt))

  pub genuine-set :
      (i : ℕ) (p : Phase Decimal) (s : System Decimal)
      → ¬ IsRunning p
      → IsSound s
      → (j : ℕ) (state : PersistedState Decimal) (d : EligibleDeposit Decimal)
      → set_phase i p s.phase j ≡ running state
      → In (j, d) s.log
      → In d (sent_deposits L (pass_of L config (w j) state))
  genuine-set i p s ends sound j state d e sent =
      sound.genuine j state d (running-old i j p s.phase state ends e) sent

  pub recorded-set :
      (i : ℕ) (p : Phase Decimal) (s : System Decimal) (disk : Disk)
      → (IsProcessedAt L J config serde h s.disk → IsProcessedAt L J config serde h disk)
      → ((d : EligibleDeposit Decimal)
          → In (i, d) s.log
          → d.tx_hash ≡ h
          → IsOpen (s.phase i)
          → IsOpen p ⊎ IsProcessedAt L J config serde h disk)
      → IsSound s
      → (j : ℕ) (d : EligibleDeposit Decimal) → In (j, d) s.log
      → d.tx_hash ≡ h
      → IsOpen (set_phase i p s.phase j) ⊎ IsProcessedAt L J config serde h disk
  recorded-set i p s disk keeps closes sound j d sent hash = elim (sound.recorded j d sent hash) [
    | inr old ↦ inr (keeps old)
    | inl open_still ↦ elim (set_phase-cases i j p s.phase) [
      | inr (_, e) ↦ inl (subst IsOpen (sym e) open_still)
      | inl (same, e) ↦
          elim (closes d (subst (λ k. In (k, d) s.log) same sent) hash
            (subst (λ k. IsOpen (s.phase k)) same open_still)) [
              | inl o ↦ inl (subst IsOpen (sym e) o)
              | inr old ↦ inr old
            ]
    ]
  ]

  -- An invocation that has begun ends.
  pub ended-IsSound :
      (i : ℕ) (p : Phase Decimal) (s : System Decimal) (disk : Disk)
      → IsActive (s.phase i)
      → ¬ IsActive p
      → ¬ IsRunning p
      → (HasBegun (s.phase i) → HasBegun p)
      → (IsProcessedAt L J config serde h s.disk → IsProcessedAt L J config serde h disk)
      → ((d : EligibleDeposit Decimal)
          → In (i, d) s.log
          → d.tx_hash ≡ h
          → IsOpen (s.phase i)
          → IsOpen p ⊎ IsProcessedAt L J config serde h disk)
      → IsSound s
      → IsSound (record s { phase = set_phase i p s.phase; holder = none; disk = disk })
  ended-IsSound i p s disk active ends halts goes keeps closes sound =
      let excl : IsExclusive L config w h
          (record s { phase = set_phase i p s.phase; holder = none; disk = disk }) =
        ended-IsExclusive L config w h s.phase s.holder i p sound.exclusive active ends in
      record {
        exclusive = excl;
        current = λ j state e. absurd (
            free-running (record s { phase = set_phase i p s.phase; holder = none; disk = disk }) j
              state excl refl e);
        genuine = genuine-set i p s halts sound;
        begun = begun-set i p s.phase s.log goes sound.begun;
        recorded = recorded-set i p s disk keeps closes sound;
      }

  -- An invocation moves on without touching the disk, from a phase in which it has sent nothing.
  pub moved-IsSound :
      (i : ℕ) (p : Phase Decimal) (holder : Option ℕ) (s : System Decimal)
      → ¬ HasBegun (s.phase i)
      → ¬ IsRunning p
      → IsExclusive L config w h (record s { phase = set_phase i p s.phase; holder = holder })
      → IsSound s
      → IsSound (record s { phase = set_phase i p s.phase; holder = holder })
  moved-IsSound i p holder s unbegun halts excl sound = record {
    exclusive = excl;
    current = λ j state e. sound.current j state (running-old i j p s.phase state halts e);
    genuine = genuine-set i p s halts sound;
    begun = begun-set i p s.phase s.log (λ b. absurd (unbegun b)) sound.begun;
    recorded =
        recorded-set i p s s.disk (λ old. old)
          (λ d sent hash o. absurd (unbegun (sound.begun i d sent))) sound;
  }
