-- ===== src/Main/History.antt =====
-- main.rs: the invocations behind a run that has saved its state.
use cryptosweep.Base.{
  ◌≡◌, ◌≢◌, refl, sym, ap, ◌∙◌, subst, inl, inr, String, true, none, In, string_eq, arith,
}
use cryptosweep.Base.StringSet.{contains}
use cryptosweep.Base.FilePath.{EndsInName}
use cryptosweep.Types.Decimal.{DecimalLib}
use cryptosweep.Types.Error.{AppError, ok, err, Result-cases}
use cryptosweep.Types.State.{PersistedState, EligibleDeposit}
use cryptosweep.Config.{CryptoSweepConfig}
use cryptosweep.Coinbase.Auth.{JwtLib}
use cryptosweep.Persistence.File.{Disk, Serde, read_to_string, load_state}
use cryptosweep.Persistence.File.Laws.{AgreeAt, load_state-save_state}
use cryptosweep.Main.{World, next_state, save, run}
use cryptosweep.Main.Kill.{client_of, read-AgreeAt, LeftUnsaved, unsaved-AgreeAt}
use cryptosweep.Main.Again.{
  load_state-open, NotPruned, stays-processed, saved-processed, sends_new, run-run_from,
  stopped-disk,
}

module _ (L : DecimalLib) (J : JwtLib) (config : CryptoSweepConfig L.Decimal) where
  open L use {Decimal}

  module _ (serde : Serde Decimal) (h : String) where
    -- The disks that invocations leave, one behind the other, from the first disk on: each has
    -- saved its state and pruned no record of the hash, or has stopped with an error, or was killed
    -- or could not save.
    pub data Later (first : Disk) : Disk → Type 0 where
      here : Later first first
      saved :
          {disk : Disk} (w : World Decimal) (state : PersistedState Decimal)
          → Later first disk
          → w.serde ≡ serde
          → EndsInName config.state_file
          → load_state w.serde (read_to_string w.denied config.state_file disk) ≡ ok state
          → (save L config w state disk).result ≡ ok tt
          → NotPruned L config w state h
          → Later first (run L config w J disk).disk
      stopped :
          {disk : Disk} (w : World Decimal) (e : AppError)
          → Later first disk
          → (run L config w J disk).result ≡ err e
          → Later first (run L config w J disk).disk
      unsaved :
          {disk d : Disk} (w : World Decimal)
          → Later first disk
          → EndsInName config.state_file
          → LeftUnsaved L J config w disk d
          → Later first d

    -- The state file can be read, and the hash is processed in it.
    abbrev pub IsProcessedAt : Disk → Type 0
    IsProcessedAt disk =
        (state : PersistedState Decimal) × (load_state serde
            (read_to_string none config.state_file disk)
          ≡ ok state)
        × (contains state.processed_tx_hashes h ≡ true)

    pub agree-IsProcessedAt :
        (disk d : Disk) → AgreeAt config.state_file disk d → IsProcessedAt disk → IsProcessedAt d
    agree-IsProcessedAt disk d same (state, reads, old) = (
      state,
      ap (load_state serde) (read-AgreeAt none config.state_file disk d same) ∙ reads,
      old,
    )

    -- A save of a state in which the hash is processed.
    pub save-IsProcessedAt :
        (w : World Decimal) (disk : Disk) (state : PersistedState Decimal)
        → ((s : PersistedState Decimal) (text : String)
            → serde.to_string_pretty s ≡ ok text
            → serde.from_str text ≡ ok s)
        → w.serde ≡ serde
        → EndsInName config.state_file
        → (save L config w state disk).result ≡ ok tt
        → contains (next_state L config w state).processed_tx_hashes h ≡ true
        → IsProcessedAt (save L config w state disk).disk
    save-IsProcessedAt w disk state back same apart saves old = (
      next_state L config w state,
      subst
          (λ (x : Serde Decimal).
            load_state x (read_to_string none config.state_file (save L config w state disk).disk)
            ≡ ok (next_state L config w state))
          same
          (load_state-save_state w.serde w.answers config.state_file (next_state L config w state)
            disk
            (subst
              (λ (x : Serde Decimal).
                (s : PersistedState Decimal) (text : String)
                → x.to_string_pretty s ≡ ok text
                → x.from_str text ≡ ok s)
              (sym same) back)
            apart saves),
      old,
    )

    saved-IsProcessedAt :
        (w : World Decimal) (disk : Disk) (state : PersistedState Decimal)
        → ((s : PersistedState Decimal) (text : String)
            → serde.to_string_pretty s ≡ ok text
            → serde.from_str text ≡ ok s)
        → w.serde ≡ serde
        → EndsInName config.state_file
        → load_state w.serde (read_to_string w.denied config.state_file disk) ≡ ok state
        → (save L config w state disk).result ≡ ok tt
        → NotPruned L config w state h
        → IsProcessedAt disk
        → IsProcessedAt (run L config w J disk).disk
    unfolding run
    saved-IsProcessedAt w disk state back same apart reads saves fresh (state', reads', old) =
        elim (Result-cases (client_of L J config)) [
          | inr (e, bad) ↦ rw (reads, bad, run) (state', reads', old)
          | inl (client, made) ↦
              let opened = load_state-open w.serde w.denied config.state_file disk state reads in
              let equal : state' ≡ state = cc (
                ap
                    (λ (x : Serde Decimal).
                      load_state x (read_to_string none config.state_file disk))
                    same,
                opened,
                reads',
              ) in
              rw (reads, made, run)
                (save-IsProcessedAt w disk state back same apart saves
                  (stays-processed L config w state h fresh (rw (sym equal) old)))
        ]

    later-IsProcessedAt :
        (first disk : Disk)
        → ((s : PersistedState Decimal) (text : String)
            → serde.to_string_pretty s ≡ ok text
            → serde.from_str text ≡ ok s)
        → Later first disk
        → IsProcessedAt first
        → IsProcessedAt disk
    later-IsProcessedAt first _ back here old = old
    later-IsProcessedAt first _ back (saved {disk} w state before same apart reads saves fresh)
          old =
        saved-IsProcessedAt w disk state back same apart reads saves fresh
          (later-IsProcessedAt first disk back before old)
    later-IsProcessedAt first _ back (stopped {disk} w e before fails) old =
        subst IsProcessedAt (sym (stopped-disk L J config w disk e fails))
          (later-IsProcessedAt first disk back before old)
    later-IsProcessedAt first d back (unsaved {disk} w before apart lost) old =
        agree-IsProcessedAt disk d (unsaved-AgreeAt L J config w disk d apart lost)
          (later-IsProcessedAt first disk back before old)

  -- Where a run has saved its state, no later invocation sends a deposit that has the hash of one
  -- that the run has sent, however many invocations end between them, are killed or fail. The
  -- serializer reads what it has printed, the path of the state file ends in a file's name, and no
  -- record of the hash is older than 90 days at the pruning of a run that saves.
  pub run_again :
      (w again : World Decimal) (disk later : Disk) (state : PersistedState Decimal)
      (d d' : EligibleDeposit Decimal)
      → ((s : PersistedState Decimal) (text : String)
          → w.serde.to_string_pretty s ≡ ok text
          → w.serde.from_str text ≡ ok s)
      → EndsInName config.state_file
      → load_state w.serde (read_to_string w.denied config.state_file disk) ≡ ok state
      → (save L config w state disk).result ≡ ok tt
      → NotPruned L config w state d.tx_hash
      → In d (run L config w J disk).sent
      → Later w.serde d.tx_hash (run L config w J disk).disk later
      → again.serde ≡ w.serde
      → In d' (run L config again J later).sent
      → d'.tx_hash ≢ d.tx_hash
  run_again w again disk later state d d' back apart reads saves fresh sent between same sent' e =
      let ends = run-run_from L J config w disk state d reads sent in
      let old = saved-processed L config w state d fresh (subst (λ o. In d o.sent) ends sent) in
      let first : IsProcessedAt w.serde d.tx_hash (run L config w J disk).disk =
        subst (λ o. IsProcessedAt w.serde d.tx_hash o.disk) (sym ends)
          (save-IsProcessedAt w.serde d.tx_hash w disk state back refl apart saves old) in
      let (s, loads, known) =
        later-IsProcessedAt w.serde d.tx_hash (run L config w J disk).disk later back between
          first in
      let (s', loads', new) = sends_new L J config again later d' sent' in
      let opened = load_state-open again.serde again.denied config.state_file later s' loads' in
      let equal : s ≡ s' = cc (
        ap (λ (x : Serde Decimal). load_state x (read_to_string none config.state_file later)) same,
        opened,
        loads,
      ) in
      let known' : contains s'.processed_tx_hashes d'.tx_hash ≡ true =
        subst (λ h. contains s'.processed_tx_hashes h ≡ true) (sym e)
          (subst (λ (x : PersistedState Decimal). contains x.processed_tx_hashes d.tx_hash ≡ true)
            equal known) in
      ground (arith, known', new)
