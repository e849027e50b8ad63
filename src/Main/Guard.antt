-- ===== src/Main/Guard.antt =====
-- main.rs: which invocations touch anything, and how each of them ends.
use cryptosweep.Base.{◌≡◌, refl, sym, subst, inl, inr, String, ◌<>◌, ℕ, List, [], ◌∷◌}
use cryptosweep.Types.Decimal.{DecimalLib}
use cryptosweep.Types.Error.{IoError, AppError, message, Result, ok, err, Result-cases}
use cryptosweep.Types.State.{PersistedState}
use cryptosweep.Config.{CryptoSweepConfig}
use cryptosweep.Coinbase.Auth.{JwtLib}
use cryptosweep.Coinbase.Client
use cryptosweep.Notifier
use cryptosweep.Persistence.File.{Disk, read_to_string, load_state}
use cryptosweep.Persistence.Lock.{acquire_lock}
use cryptosweep.Main.{World, Exit, run_from, run, after_lock, main}

module _ (L : DecimalLib) (J : JwtLib) (loaded : Result (CryptoSweepConfig L.Decimal) AppError)
    (opened locked : Result (Unit {0}) IoError) (w : World L.Decimal) (disk : Disk) where
  open L use {Decimal}

  -- The invocation ends with the code, has sent no deposit and left the disk alone at all times; it
  -- sends the user the messages.
  abbrev pub Untouched : Exit L → ℕ → List String → Type 0
  Untouched x code messages =
      (x.code ≡ code)
      × (x.outcome.sent ≡ [])
      × (x.outcome.disk ≡ disk)
      × (x.outcome.before_rename ≡ disk ∷ [])
      × (x.outcome.messages ≡ messages)

  -- The ways in which an invocation ends: the configuration or the chat id are bad; the lock is
  -- refused; the state file or the key cannot be read; or the pass runs, which takes the lock, a
  -- readable state and a key.
  pub data MainRun (x : Exit L) : Type 0 where
    misconfigured : (e : AppError) → loaded ≡ err e → Untouched x 1 [] → MainRun x
    no_notifier :
        (config : CryptoSweepConfig Decimal) (e : AppError)
        → loaded ≡ ok config
        → Notifier.new config.telegram_bot_token config.telegram_chat_id ≡ err e
        → Untouched x 1 []
        → MainRun x
    locked_out :
        (e : AppError)
        → acquire_lock opened locked ≡ err e
        → Untouched x 0 (("cryptosweep: failed to acquire lock: " <> message e) ∷ [])
        → MainRun x
    failed :
        (config : CryptoSweepConfig Decimal) (e : AppError)
        → loaded ≡ ok config
        → acquire_lock opened locked ≡ ok tt
        → (run L config w J disk).result ≡ err e
        → Untouched x 1 (("cryptosweep fatal: " <> message e) ∷ [])
        → MainRun x
    ran :
        (config : CryptoSweepConfig Decimal) (state : PersistedState Decimal)
        (client : Client.LiveCoinbaseClient J.SigningKey)
        → loaded ≡ ok config
        → acquire_lock opened locked ≡ ok tt
        → load_state w.serde (read_to_string w.denied config.state_file disk) ≡ ok state
        → Client.new J config.coinbase_api_key config.coinbase_api_secret
            config.coinbase_usdc_account_id config.coinbase_usd_account_id
          ≡ ok client
        → x ≡ record { code = 0; outcome = run_from L config w state disk }
        → MainRun x

  locked-MainRun :
      (config : CryptoSweepConfig Decimal) (lock : Result (Unit {0}) AppError)
      → loaded ≡ ok config
      → acquire_lock opened locked ≡ lock
      → MainRun (after_lock L J loaded opened locked w config disk lock)
  unfolding run
  locked-MainRun config (err e) good refused = locked_out e refused (refl, refl, refl, refl, refl)
  locked-MainRun config (ok _) good held =
      elim (Result-cases (load_state w.serde (read_to_string w.denied config.state_file disk))) [
        | inr (e, bad) ↦
            failed config e good held (rw (bad, run) refl)
              (rw (bad, run) (refl, refl, refl, refl, refl))
        | inl (state, reads) ↦
            elim (Result-cases (
              Client.new J config.coinbase_api_key config.coinbase_api_secret
                config.coinbase_usdc_account_id config.coinbase_usd_account_id)) [
                  | inr (e, bad) ↦
                      failed config e good held (rw (reads, bad, run) refl)
                        (rw (reads, bad, run) (refl, refl, refl, refl, refl))
                  | inl (client, made) ↦
                      ran config state client good held reads made (rw (reads, made, run) refl)
                ]
      ]

  -- Every invocation ends in one of these ways. Deposits are sent and the disk is written only by an
  -- invocation that holds the lock, has a configuration, has read the state file and has a key;
  -- the exit code is 0 for it and for one that the lock keeps out, and 1 for all others; and each
  -- stop behind the notifier is told to the user by exactly one message.
  pub main-MainRun : MainRun (main L J loaded opened locked w disk)
  unfolding main
  main-MainRun = elim (Result-cases loaded) [
    | inr (e, bad) ↦ misconfigured e bad (rw (bad, main) (refl, refl, refl, refl, refl))
    | inl (config, good) ↦
        elim (Result-cases (Notifier.new config.telegram_bot_token config.telegram_chat_id)) [
          | inr (e, bad) ↦
              no_notifier config e good bad (rw (good, bad, main) (refl, refl, refl, refl, refl))
          | inl (notifier, made) ↦
              let reached : main L J loaded opened locked w disk
                  ≡ after_lock L J loaded opened locked w config disk (acquire_lock opened locked) =
                rw (good, made, main) refl in
              subst MainRun (sym reached)
                (locked-MainRun config (acquire_lock opened locked) good refl)
        ]
  ]
