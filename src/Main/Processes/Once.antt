-- ===== src/Main/Processes/Once.antt =====
-- main.rs: no two invocations that save send the same deposit, in whatever order they take their
-- steps.
use cryptosweep.Base.{
  ◌≡◌, sym, subst, ◌⊎◌, inl, inr, String, ℕ, none, some, In, true, false, string_eq,
}
use cryptosweep.Base.StringSet.{contains}
use cryptosweep.Base.FilePath.{EndsInName}
use cryptosweep.Types.Decimal.{DecimalLib}
use cryptosweep.Types.Error.{ok}
use cryptosweep.Types.State.{PersistedState, EligibleDeposit}
use cryptosweep.Config.{CryptoSweepConfig}
use cryptosweep.Coinbase.Auth.{JwtLib}
use cryptosweep.Orchestrator.Pass.{sent_deposits}
use cryptosweep.Orchestrator.Pass.Twice.{sent-IsNew}
use cryptosweep.Persistence.File.{Disk, Serde, read_to_string, load_state}
use cryptosweep.Persistence.File.Laws.{AgreeAt, save_state-IsStaged}
use cryptosweep.Main.{World, next_state, pass_of, save}
use cryptosweep.Main.Again.{load_state-open, saved-processed, stays-processed, NotPruned}
use cryptosweep.Main.History.{IsProcessedAt, agree-IsProcessedAt, save-IsProcessedAt}
use cryptosweep.Main.Kill.{failed-AgreeAt, All-In-AgreeAt}
use cryptosweep.Main.Processes.{
  locked, running, saved, stopped, lost, System, set_phase, at_rest, Step, takes_lock,
  is_locked_out, gives_up, loads, stops, sends, saves, fails_to_save, is_killed, Reach, here, next,
}
use cryptosweep.Main.Processes.Invariant.{IsActive, HasBegun, IsExclusive, step-IsExclusive}
use cryptosweep.Main.Processes.Sound.{open-lost, IsSound, ended-IsSound, moved-IsSound}
use cryptosweep.Main.Processes.Moves.{loads-IsSound, sends-IsSound}

module _ (L : DecimalLib) (J : JwtLib) (config : CryptoSweepConfig L.Decimal)
    (w : ℕ → World L.Decimal) (h : String) (serde : Serde L.Decimal) where
  open L use {Decimal}

  module _
      (back : (s : PersistedState Decimal) (text : String)
        → serde.to_string_pretty s ≡ ok text
        → serde.from_str text ≡ ok s)
      (same : (i : ℕ) → (w i).serde ≡ serde) (apart : EndsInName config.state_file) where
    -- A save that succeeds puts on the disk what was processed before, and what was sent.
    saves-IsSound :
        (i : ℕ) (state : PersistedState Decimal) (s : System Decimal)
        → s.phase i ≡ running state
        → (save L config (w i) state s.disk).result ≡ ok tt
        → NotPruned L config (w i) state h
        → IsSound L J config w h serde s
        → IsSound L J config w h serde (record s {
          phase = set_phase i saved s.phase;
          holder = none;
          disk = (save L config (w i) state s.disk).disk;
        })
    saves-IsSound i state s was succeeds fresh sound =
        let kept : contains (next_state L config (w i) state).processed_tx_hashes h ≡ true
            → IsProcessedAt L J config serde h (save L config (w i) state s.disk).disk =
          save-IsProcessedAt L J config serde h (w i) s.disk state back (same i) apart succeeds in
        ended-IsSound L J config w h serde i saved s (save L config (w i) state s.disk).disk
          (subst IsActive (sym was) tt) (λ x. x) (λ x. x) (λ b. tt)
          (λ (state', reads, old).
            let equal : state' ≡ state = cc (reads, sound.current i state was) in
            kept (
              stays-processed L config (w i) state h fresh (
                subst (λ (x : PersistedState Decimal). contains x.processed_tx_hashes h ≡ true)
                  equal old)))
          (λ d sent hash o. inr (
            kept (
              subst (λ x. contains (next_state L config (w i) state).processed_tx_hashes x ≡ true)
                hash
                (saved-processed L config (w i) state d
                  (subst (NotPruned L config (w i) state) (sym hash) fresh)
                  (sound.genuine i state d was sent)))))
          sound

    -- An invocation that is lost leaves the state file as it was.
    lost-IsSound :
        (i : ℕ) (state : PersistedState Decimal) (disk : Disk) (s : System Decimal)
        → s.phase i ≡ running state
        → AgreeAt config.state_file s.disk disk
        → IsSound L J config w h serde s
        → IsSound L J config w h serde
            (record s { phase = set_phase i lost s.phase; holder = none; disk = disk })
    lost-IsSound i state disk s was same_file sound =
        ended-IsSound L J config w h serde i lost s disk (subst IsActive (sym was) tt) (λ x. x)
          (λ x. x) (λ b. tt) (agree-IsProcessedAt L J config serde h s.disk disk same_file)
          (λ d sent hash o. inl tt) sound

    -- What `loads` reads, with the serializer that all invocations share.
    opened :
        (i : ℕ) (disk : Disk) (state : PersistedState Decimal)
        → load_state (w i).serde (read_to_string (w i).denied config.state_file disk) ≡ ok state
        → load_state serde (read_to_string none config.state_file disk) ≡ ok state
    opened i disk state reads =
        subst
          (λ (x : Serde Decimal).
            load_state x (read_to_string none config.state_file disk) ≡ ok state)
          (same i) (load_state-open (w i).serde (w i).denied config.state_file disk state reads)

    step-IsSound :
        (s t : System Decimal)
        → (step : Step L config w h s t) → IsExclusive L config w h t
        → IsSound L J config w h serde s
        → IsSound L J config w h serde t
    step-IsSound s t (takes_lock i rest free) excl sound =
        moved-IsSound L J config w h serde i locked (some i) s (λ b. subst HasBegun rest b) (λ x. x)
          excl sound
    step-IsSound s t (is_locked_out i k rest held) excl sound =
        moved-IsSound L J config w h serde i stopped s.holder s (λ b. subst HasBegun rest b)
          (λ x. x) excl sound
    step-IsSound s t (gives_up i rest) excl sound =
        moved-IsSound L J config w h serde i stopped s.holder s (λ b. subst HasBegun rest b)
          (λ x. x) excl sound
    step-IsSound s t (loads i state was reads) excl sound =
        loads-IsSound L J config w h serde i state s was (opened i s.disk state reads) excl sound
    step-IsSound s t (stops i was) excl sound =
        moved-IsSound L J config w h serde i stopped none s (λ b. subst HasBegun was b) (λ x. x)
          excl sound
    step-IsSound s t (sends i state d was sent) excl sound =
        sends-IsSound L J config w h serde i state d s was sent sound
    step-IsSound s t (saves i state was succeeds fresh) excl sound =
        saves-IsSound i state s was succeeds fresh sound
    step-IsSound s t (fails_to_save i state e was fails) excl sound =
        lost-IsSound i state (save L config (w i) state s.disk).disk s was
          (failed-AgreeAt L J config (w i) s.disk state e apart fails) sound
    step-IsSound s t (is_killed i state d was passed) excl sound =
        lost-IsSound i state d s was
          (All-In-AgreeAt L J config s.disk d (save L config (w i) state s.disk).before_rename
            (save_state-IsStaged (w i).serde (w i).answers config.state_file
              (next_state L config (w i) state) s.disk apart).0
            passed)
          sound

    reach-IsSound :
        (disk : Disk) (s : System Decimal)
        → Reach L config w h (at_rest disk) s
        → IsSound L J config w h serde s
    reach-IsSound disk s here = record {
      exclusive = λ i active. absurd active;
      current = λ i state e. absurd (cc e);
      genuine = λ i state d e sent. absurd sent;
      begun = λ i d sent. absurd sent;
      recorded = λ i d sent hash. absurd sent;
    }
    reach-IsSound disk s (next {t} before step) =
        let sound = reach-IsSound disk t before in
        step-IsSound t s step (step-IsExclusive L config w h t s step sound.exclusive) sound

    -- When an invocation is about to send a deposit, no other invocation has sent one of the same
    -- hash, unless that one was killed before its save returned, or could not save. This holds in
    -- whatever order the invocations take their steps, from a start at which none has begun. The
    -- serializer reads what it has printed, the path of the state file ends in a file's name, and
    -- no save prunes the hash.
    pub sends_once :
        (disk : Disk) (s : System Decimal) (i j : ℕ) (state : PersistedState Decimal)
        (d d' : EligibleDeposit Decimal)
        → Reach L config w h (at_rest disk) s
        → s.phase i ≡ running state
        → In d (sent_deposits L (pass_of L config (w i) state))
        → d.tx_hash ≡ h
        → In (j, d') s.log
        → d'.tx_hash ≡ h
        → (j ≡ i) ⊎ (s.phase j ≡ lost)
    sends_once disk s i j state d d' reach runs mine hash sent hash' =
        let sound = reach-IsSound disk s reach in
        let (new, _) = sent-IsNew L (pass_of L config (w i) state) d mine in
        elim (sound.recorded j d' sent hash') [
          | inl open_still ↦ elim (open-lost (s.phase j) open_still) [
            | inr gone ↦ inr gone
            | inl (st, at) ↦
                let his = sound.exclusive j (subst IsActive (sym at) tt) in
                let own = sound.exclusive i (subst IsActive (sym runs) tt) in inl (cc (his, own))
          ]
          | inr (st, reads, old) ↦
              let equal : st ≡ state = cc (reads, sound.current i state runs) in
              let old' =
                subst (λ (x : PersistedState Decimal). contains x.processed_tx_hashes h ≡ true)
                  equal old in
              absurd (cc (old', subst (λ x. contains state.processed_tx_hashes x ≡ false) hash new))
        ]
