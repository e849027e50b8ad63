-- ===== src/Main/Kill.antt =====
-- main.rs: what a run that is killed, or whose save fails, leaves to the next one.
use cryptosweep.Base.{
  ◌≡◌, refl, sym, ap, ◌∙◌, inl, inr, String, Option, none, some, List, [], ◌∷◌, All,
}
use cryptosweep.Base.{string_eq, subst, arith, In, In-append, ◌⊎◌}
use cryptosweep.Base.FilePath.{EndsInName}
use cryptosweep.Types.Decimal.{DecimalLib}
use cryptosweep.Types.Error.{AppError, Result, ok, err, Result-cases}
use cryptosweep.Types.State.{PersistedState, EligibleDeposit}
use cryptosweep.Config.{CryptoSweepConfig}
use cryptosweep.Coinbase.Auth.{JwtLib}
use cryptosweep.Coinbase.Client
use cryptosweep.Orchestrator.Pass.{sent_deposits}
use cryptosweep.Persistence.File.{Disk, read_to_string, load_state}
use cryptosweep.Persistence.File.Laws.{AgreeAt, Leaves, save_state-IsStaged}
use cryptosweep.Main.{World, pass_of, next_state, save, run, moments}

pub read-AgreeAt :
    (denied : Option String) (path : String) (disk d : Disk)
    → AgreeAt path disk d
    → read_to_string denied path d ≡ read_to_string denied path disk
read-AgreeAt (some m) path disk d same = refl
read-AgreeAt none path disk d same = ground (arith, same)

module _ (L : DecimalLib) (J : JwtLib) (config : CryptoSweepConfig L.Decimal) where
  open L use {Decimal}

  -- The deposits that a run sends, from what its load and its client gave.
  abbrev pub sent_from :
      World Decimal
      → Result (PersistedState Decimal) AppError
      → Result (Client.LiveCoinbaseClient J.SigningKey) AppError
      → List (EligibleDeposit Decimal)
  sent_from w (err e) client = []
  sent_from w (ok state) (err e) = []
  sent_from w (ok state) (ok client) = sent_deposits L (pass_of L config w state)

  abbrev pub client_of : Result (Client.LiveCoinbaseClient J.SigningKey) AppError
  client_of =
      Client.new J config.coinbase_api_key config.coinbase_api_secret
        config.coinbase_usdc_account_id config.coinbase_usd_account_id

  pub run-sent_from :
      (w : World Decimal) (disk : Disk)
      → (run L config w J disk).sent
        ≡ sent_from w
            (load_state w.serde (read_to_string w.denied config.state_file disk))
            client_of
  unfolding run
  run-sent_from w disk =
      elim (Result-cases (load_state w.serde (read_to_string w.denied config.state_file disk))) [
        | inr (e, bad) ↦ rw (bad, run) refl
        | inl (state, reads) ↦ elim (Result-cases client_of) [
          | inr (e, bad) ↦ rw (reads, bad, run) refl
          | inl (client, made) ↦ rw (reads, made, run) refl
        ]
      ]

  -- Two disks that agree on the state file make a run send the same.
  sent-AgreeAt :
      (w : World Decimal) (disk d : Disk)
      → AgreeAt config.state_file disk d
      → (run L config w J d).sent ≡ (run L config w J disk).sent
  sent-AgreeAt w disk d same =
      run-sent_from w d
      ∙ ap (λ x. sent_from w (load_state w.serde x) client_of)
          (read-AgreeAt w.denied config.state_file disk d same)
      ∙ sym (run-sent_from w disk)

  -- What a run leaves that did not come to save its state: any disk before its rename, where it is
  -- killed there, or the disk behind it, where its save has failed.
  pub data LeftUnsaved (w : World Decimal) (disk d : Disk) : Type 0 where
    killed : In d (run L config w J disk).before_rename → LeftUnsaved w disk d
    save_failed :
        (state : PersistedState Decimal) (e : AppError)
        → load_state w.serde (read_to_string w.denied config.state_file disk) ≡ ok state
        → (save L config w state disk).result ≡ err e
        → d ≡ (run L config w J disk).disk
        → LeftUnsaved w disk d

  pub All-In-AgreeAt :
      (disk d : Disk) (ds : List Disk)
      → All (AgreeAt config.state_file disk) ds
      → In d ds
      → AgreeAt config.state_file disk d
  All-In-AgreeAt disk d [] h i = absurd i
  All-In-AgreeAt disk d (x ∷ ds) (same, rest) (inl here) =
      subst (AgreeAt config.state_file disk) (sym here) same
  All-In-AgreeAt disk d (x ∷ ds) (same, rest) (inr later) = All-In-AgreeAt disk d ds rest later

  before_rename-AgreeAt :
      (w : World Decimal) (disk : Disk)
      → EndsInName config.state_file
      → All (AgreeAt config.state_file disk) (run L config w J disk).before_rename
  unfolding run
  before_rename-AgreeAt w disk apart =
      elim (Result-cases (load_state w.serde (read_to_string w.denied config.state_file disk))) [
        | inr (e, bad) ↦ rw (bad, run) (refl, tt)
        | inl (state, reads) ↦ elim (Result-cases client_of) [
          | inr (e, bad) ↦ rw (reads, bad, run) (refl, tt)
          | inl (client, made) ↦
              rw (reads, made, run)
                (save_state-IsStaged w.serde w.answers config.state_file
                  (next_state L config w state) disk apart).0
        ]
      ]

  pub failed-AgreeAt :
      (w : World Decimal) (disk : Disk) (state : PersistedState Decimal) (e : AppError)
      → EndsInName config.state_file
      → (save L config w state disk).result ≡ err e
      → AgreeAt config.state_file disk (save L config w state disk).disk
  failed-AgreeAt w disk state e apart fails =
      subst
        (λ r.
          Leaves w.serde w.answers config.state_file (next_state L config w state) disk r
            (save L config w state disk).disk)
        fails
        (save_state-IsStaged w.serde w.answers config.state_file (next_state L config w state) disk
          apart).1

  disk-AgreeAt :
      (w : World Decimal) (disk : Disk) (state : PersistedState Decimal) (e : AppError)
      → EndsInName config.state_file
      → load_state w.serde (read_to_string w.denied config.state_file disk) ≡ ok state
      → (save L config w state disk).result ≡ err e
      → AgreeAt config.state_file disk (run L config w J disk).disk
  unfolding run
  disk-AgreeAt w disk state e apart reads fails = elim (Result-cases client_of) [
    | inr (x, bad) ↦ rw (reads, bad, run) refl
    | inl (client, made) ↦ rw (reads, made, run) (failed-AgreeAt w disk state e apart fails)
  ]

  pub unsaved-AgreeAt :
      (w : World Decimal) (disk d : Disk)
      → EndsInName config.state_file
      → LeftUnsaved w disk d
      → AgreeAt config.state_file disk d
  unsaved-AgreeAt w disk d apart (killed i) =
      All-In-AgreeAt disk d (run L config w J disk).before_rename
        (before_rename-AgreeAt w disk apart) i
  unsaved-AgreeAt w disk d apart (save_failed state e reads fails same) =
      subst (AgreeAt config.state_file disk) (sym same)
        (disk-AgreeAt w disk state e apart reads fails)

  -- The run came to save its state, and its save has succeeded.
  abbrev pub HasSaved : World Decimal → Disk → Type 0
  HasSaved w disk =
      (state : PersistedState Decimal) × (load_state w.serde
          (read_to_string w.denied config.state_file disk)
        ≡ ok state)
      × ((save L config w state disk).result ≡ ok tt)

  run-HasSaved :
      (w : World Decimal) (disk : Disk)
      → EndsInName config.state_file
      → AgreeAt config.state_file disk (run L config w J disk).disk ⊎ HasSaved w disk
  unfolding run
  run-HasSaved w disk name =
      elim (Result-cases (load_state w.serde (read_to_string w.denied config.state_file disk))) [
        | inr (e, bad) ↦ inl (rw (bad, run) refl)
        | inl (state, reads) ↦ elim (Result-cases (save L config w state disk).result) [
          | inr (e, fails) ↦ inl (disk-AgreeAt w disk state e name reads fails)
          | inl (_, saves) ↦ inr (state, reads, saves)
        ]
      ]

  -- What a killed run leaves, the next run takes up in one of two ways. Either the killed run is
  -- forgotten: the next one sends exactly the deposits that it would send if there had been no such
  -- run, so with the same answers all those again that the lost run has sent. Or the killed run's
  -- save had succeeded, and the next one sends what it would send if the killed one had returned. A
  -- run that returns is a case of this: it is forgotten unless its save succeeds. The path of
  -- the state file ends in a file's name.
  pub killed_resends :
      (w again : World Decimal) (disk d : Disk)
      → EndsInName config.state_file
      → In d (moments (run L config w J disk))
      → ((run L config again J d).sent ≡ (run L config again J disk).sent)
        ⊎ (HasSaved w disk
            × ((run L config again J d).sent
                ≡ (run L config again J (run L config w J disk).disk).sent))
  killed_resends w again disk d name i =
      elim (In-append d (run L config w J disk).before_rename ((run L config w J disk).disk ∷ [])
        i) [
          | inl before ↦
              inl (sent-AgreeAt again disk d (unsaved-AgreeAt w disk d name (killed before)))
          | inr (inl end) ↦ elim (run-HasSaved w disk name) [
            | inl forgotten ↦ inl (
                sent-AgreeAt again disk d
                  (subst (AgreeAt config.state_file disk) (sym end) forgotten))
            | inr saved ↦ inr (saved, ap (λ x. (run L config again J x).sent) end)
          ]
          | inr (inr none_left) ↦ absurd none_left
        ]
