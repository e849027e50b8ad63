-- ===== src/Main/Processes/Moves.antt =====
-- main.rs: reading the state and sending a deposit keep what the invocations know of the disk.
use cryptosweep.Base.{◌≡◌, sym, ap, ◌∙◌, subst, inl, inr, String, ℕ, none, ◌∷◌, In, string_eq}
use cryptosweep.Types.Decimal.{DecimalLib}
use cryptosweep.Types.Error.{ok}
use cryptosweep.Types.State.{PersistedState, EligibleDeposit}
use cryptosweep.Config.{CryptoSweepConfig}
use cryptosweep.Coinbase.Auth.{JwtLib}
use cryptosweep.Orchestrator.Pass.{sent_deposits}
use cryptosweep.Persistence.File.{Serde, read_to_string, load_state}
use cryptosweep.Main.{World, pass_of}
use cryptosweep.Main.Processes.{locked, running, System, set_phase}
use cryptosweep.Main.Processes.Invariant.{HasBegun, IsOpen, set_phase-cases, IsExclusive}
use cryptosweep.Main.Processes.Sound.{IsSound, begun-set, recorded-set}

module _ (L : DecimalLib) (J : JwtLib) (config : CryptoSweepConfig L.Decimal)
    (w : ℕ → World L.Decimal) (h : String) (serde : Serde L.Decimal) where
  open L use {Decimal}

  -- What one invocation holds of the state is what the other holds of it.
  loaded-current :
      (i j : ℕ) (state st : PersistedState Decimal) (s : System Decimal)
      → load_state serde (read_to_string none config.state_file s.disk) ≡ ok state
      → IsSound L J config w h serde s
      → set_phase i (running state) s.phase j ≡ running st
      → load_state serde (read_to_string none config.state_file s.disk) ≡ ok st
  loaded-current i j state st s reads sound e = elim (set_phase-cases i j (running state) s.phase) [
    | inl (_, e') ↦ let equal : state ≡ st = cc (e, e') in reads ∙ ap ok equal
    | inr (_, e') ↦ sound.current j st (sym e' ∙ e)
  ]

  loaded-genuine :
      (i j : ℕ) (state st : PersistedState Decimal) (s : System Decimal)
      (d : EligibleDeposit Decimal)
      → s.phase i ≡ locked
      → IsSound L J config w h serde s
      → set_phase i (running state) s.phase j ≡ running st
      → In (j, d) s.log
      → In d (sent_deposits L (pass_of L config (w j) st))
  loaded-genuine i j state st s d was sound e sent =
      elim (set_phase-cases i j (running state) s.phase) [
        | inl (at, _) ↦ absurd (subst HasBegun (ap s.phase at ∙ was) (sound.begun j d sent))
        | inr (_, e') ↦ sound.genuine j st d (sym e' ∙ e) sent
      ]

  pub loads-IsSound :
      (i : ℕ) (state : PersistedState Decimal) (s : System Decimal)
      → s.phase i ≡ locked
      → load_state serde (read_to_string none config.state_file s.disk) ≡ ok state
      → IsExclusive L config w h (record s { phase = set_phase i (running state) s.phase })
      → IsSound L J config w h serde s
      → IsSound L J config w h serde (record s { phase = set_phase i (running state) s.phase })
  loads-IsSound i state s was reads excl sound = record {
    exclusive = excl;
    current = λ j st e. loaded-current i j state st s reads sound e;
    genuine = λ j st d e sent. loaded-genuine i j state st s d was sound e sent;
    begun = begun-set i (running state) s.phase s.log (λ b. tt) sound.begun;
    recorded =
        recorded-set L J config w h serde i (running state) s s.disk (λ old. old)
          (λ d sent hash o. inl tt) sound;
  }

  sent-genuine :
      (i j : ℕ) (state st : PersistedState Decimal) (s : System Decimal)
      (d d' : EligibleDeposit Decimal)
      → s.phase i ≡ running state
      → In d (sent_deposits L (pass_of L config (w i) state))
      → IsSound L J config w h serde s
      → s.phase j ≡ running st
      → In (j, d') ((i, d) ∷ s.log)
      → In d' (sent_deposits L (pass_of L config (w j) st))
  sent-genuine i j state st s d d' was genuine sound e (inr sent) = sound.genuine j st d' e sent
  sent-genuine i j state st s d d' was genuine sound e (inl now) =
      let at : j ≡ i = ap (λ x. x.0) now in
      let equal : state ≡ st = cc (was, e, ap s.phase at) in
      subst (λ x. In x.1 (sent_deposits L (pass_of L config (w x.0) st))) (sym now)
        (subst (λ x. In d (sent_deposits L (pass_of L config (w i) x))) equal genuine)

  pub sends-IsSound :
      (i : ℕ) (state : PersistedState Decimal) (d : EligibleDeposit Decimal) (s : System Decimal)
      → s.phase i ≡ running state
      → In d (sent_deposits L (pass_of L config (w i) state))
      → IsSound L J config w h serde s
      → IsSound L J config w h serde (record s { log = (i, d) ∷ s.log })
  sends-IsSound i state d s was genuine sound =
      let runs : (j : ℕ) (d' : EligibleDeposit Decimal)
          → (j, d') ≡ (i, d)
          → running state ≡ s.phase j =
        λ j d' now. sym (ap (λ x. s.phase x.0) now ∙ was) in
      record {
        exclusive = sound.exclusive;
        current = sound.current;
        genuine = λ j st d' e sent. sent-genuine i j state st s d d' was genuine sound e sent;
        begun = λ j d' sent. elim sent [
          | inl now ↦ subst HasBegun (runs j d' now) tt
          | inr before ↦ sound.begun j d' before
        ];
        recorded = λ j d' sent hash. elim sent [
          | inl now ↦ inl (subst IsOpen (runs j d' now) tt)
          | inr before ↦ sound.recorded j d' before hash
        ];
      }
