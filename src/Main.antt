-- ===== src/Main.antt =====
-- main.rs: one invocation of the program.
pub mod Kill
pub mod Again
pub mod History
pub mod Guard
pub mod Alert
pub mod Processes
pub mod Start
pub mod WellFormed
pub mod Detected
use cryptosweep.Base.{
  String, ◌<>◌, ℕ, Option, none, some, Bool, List, [], ◌∷◌, ◌++◌, map, length, show_nat,
}
use cryptosweep.Base.Dict.{Dict}
use mathlib.Core.Option
use cryptosweep.Types.Chain.{Chain, chains, ethereum, base, arbitrum, polygon, optimism, monad}
use cryptosweep.Types.Decimal.{DecimalLib}
use cryptosweep.Types.Error.{IoError, AppError, message, Result, ok, err}
use cryptosweep.Types.State.{PersistedState, EligibleDeposit, LiquidationResult}
use cryptosweep.Types.Traits.{BlockExplorer}
use cryptosweep.Config.{CryptoSweepConfig, load}
use cryptosweep.Coinbase.Auth.{JwtLib}
use cryptosweep.Coinbase.Client
use cryptosweep.Coinbase.Client.{and_then}
use cryptosweep.Notifier
use cryptosweep.Orchestrator.Scan.{Clock}
use cryptosweep.Orchestrator.Pass.{DepositCheck, sent_deposits}
use cryptosweep.Orchestrator.Pass
use cryptosweep.Persistence.File.{
  Disk, Serde, SaveAnswers, Saved, read_to_string, load_state, save_state,
}
use cryptosweep.Persistence.Lock.{acquire_lock}
use cryptosweep.Persistence.Prune.{prune_stale_entries}

-- What a run meets: how the system answers to the read of the state file and to the save, the
-- explorers' answers by chain, the channel, the clock, and the results that the worker returns.
pub record World (D : Type 0) : Type 0 where
  pub denied : Option String
  pub explorers : Chain → BlockExplorer D
  pub send : EligibleDeposit D → Bool
  pub clock : Clock
  pub liquidations : List (LiquidationResult D)
  pub pruned_at : ℕ
  pub serde : Serde D
  pub answers : SaveAnswers

-- What a run leaves: its result, the disk behind it and those on the way, up to the rename of its save
-- or to its end, the deposits that went to the worker, and the run's own messages to the user; those of the worker's jobs are in their
-- traces.
pub record Outcome (D : Type 0) : Type 0 where
  pub result : Result (Unit {0}) AppError
  pub disk : Disk
  pub before_rename : List Disk
  pub sent : List (EligibleDeposit D)
  pub messages : List String

-- The disks of a run until it returns: a killed run leaves one of these.
abbrev pub moments : {D : Type 0} → Outcome D → List Disk
moments o = o.before_rename ++ (o.disk ∷ [])

-- `errors.join("\n")`
unfoldable pub join_lines : List String → String
join_lines [] = ""
join_lines (e ∷ []) = e
join_lines (e ∷ f ∷ es) = e <> "\n" <> join_lines (f ∷ es)

-- The alert about the errors of a run, if it had any.
unfoldable pub error_messages : List String → List String
unfolding join_lines
error_messages [] = []
error_messages (e ∷ es) =
    ("cryptosweep run errors (" <> show_nat (length (e ∷ es)) <> ")\n\n" <> join_lines (e ∷ es))
    ∷ []

-- The iteration over all chains that creates an explorer for each, by chain; `none` where one panics.
abbrev pub by_chain : {E : Type 0} → E → E → E → E → E → E → Chain → E
by_chain e b a p o m ethereum = e
by_chain e b a p o m base = b
by_chain e b a p o m arbitrum = a
by_chain e b a p o m polygon = p
by_chain e b a p o m optimism = o
by_chain e b a p o m monad = m

unfoldable pub create_all : {E : Type 0} → (Chain → Option E) → Option (Chain → E)
create_all new = and_then (new ethereum) (λ e. and_then (new base) (λ b.
    and_then (new arbitrum) (λ a. and_then (new polygon) (λ p.
      and_then (new optimism) (λ o. and_then (new monad) (λ m. some (by_chain e b a p o m)))))))

-- The error of a save is reported with those of the pass.
abbrev pub save_errors : Result (Unit {0}) AppError → List String
save_errors (ok _) = []
save_errors (err e) = ("State save: " <> message e) ∷ []

module _ (L : DecimalLib) where
  open L use {Decimal}

  module _ (config : CryptoSweepConfig Decimal) (w : World Decimal) where
    -- The explorers that their creation has returned, one for every chain.
    abbrev pub explorers : Dict Chain (BlockExplorer Decimal)
    explorers = map (λ c. (c, w.explorers c)) chains

    abbrev pub pass_of : PersistedState Decimal → DepositCheck Decimal
    pass_of state = record {
      config = config;
      state = state;
      explorers = explorers;
      send = w.send;
      clock = w.clock;
    }

    -- The state that is saved, and its save.
    abbrev pub next_state : PersistedState Decimal → PersistedState Decimal
    next_state state = prune_stale_entries w.pruned_at (Pass.run L (pass_of state) w.liquidations).1

    abbrev pub save : PersistedState Decimal → Disk → Saved
    save state disk = save_state w.serde w.answers config.state_file (next_state state) disk

    -- A run that stops with an error before the pass.
    abbrev pub stopped : Disk → AppError → Outcome Decimal
    stopped disk e = record {
      result = err e;
      disk = disk;
      before_rename = disk ∷ [];
      sent = [];
      messages = [];
    }

    -- The run from the loaded state on.
    abbrev pub run_from : PersistedState Decimal → Disk → Outcome Decimal
    run_from state disk = record {
      result = ok tt;
      disk = (save state disk).disk;
      before_rename = (save state disk).before_rename;
      sent = sent_deposits L (pass_of state);
      messages =
          error_messages
            ((Pass.run L (pass_of state) w.liquidations).0 ++ save_errors (save state disk).result);
    }

    -- `run` of main.rs, where the creation of the explorers returns; `try_run` has its panics too.
    unfoldable pub run : JwtLib → Disk → Outcome Decimal
    run J disk = elim (load_state w.serde (read_to_string w.denied config.state_file disk)) [
      | err e ↦ stopped disk e
      | ok state ↦
          elim (Client.new J config.coinbase_api_key config.coinbase_api_secret
            config.coinbase_usdc_account_id config.coinbase_usd_account_id) [
              | err e ↦ stopped disk e
              | ok coinbase ↦ run_from state disk
            ]
    ]

  -- `run` with the creation of its explorers, for what `LiveBlockExplorer::new` gives on each chain.
  -- `none` is a panic, of one of its `expect`s.
  unfoldable pub try_run :
      CryptoSweepConfig Decimal
      → World Decimal
      → (Chain → Option (BlockExplorer Decimal))
      → JwtLib
      → Disk
      → Option (Outcome Decimal)
  try_run config w new J disk =
      elim (load_state w.serde (read_to_string w.denied config.state_file disk)) [
        | err e ↦ some (stopped config w disk e)
        | ok state ↦
            elim (Client.new J config.coinbase_api_key config.coinbase_api_secret
              config.coinbase_usdc_account_id config.coinbase_usd_account_id) [
                | err e ↦ some (stopped config w disk e)
                | ok coinbase ↦
                    Option.map
                      (λ created. run_from config (record w { explorers = created }) state disk)
                      (create_all new)
              ]
      ]

  -- The end of a process: its exit code, and what it leaves behind.
  pub record Exit : Type 0 where
    pub code : ℕ
    pub outcome : Outcome Decimal

  -- An end that has touched nothing and sent the messages.
  abbrev pub untouched : Disk → ℕ → Result (Unit {0}) AppError → List String → Exit
  untouched disk code result messages = record {
    code = code;
    outcome = record {
      result = result;
      disk = disk;
      before_rename = disk ∷ [];
      sent = [];
      messages = messages;
    };
  }

  -- A run's error is reported, and fails the process.
  abbrev pub exit_of : Outcome Decimal → Result (Unit {0}) AppError → Exit
  exit_of o (ok _) = record { code = 0; outcome = o }
  exit_of o (err e) = record {
    code = 1;
    outcome = record o { messages = o.messages ++ (("cryptosweep fatal: " <> message e) ∷ []) };
  }

  module _ (J : JwtLib) (loaded : Result (CryptoSweepConfig Decimal) AppError)
      (opened locked : Result (Unit {0}) IoError) (w : World Decimal) where
    abbrev pub after_lock : CryptoSweepConfig Decimal → Disk → Result (Unit {0}) AppError → Exit
    after_lock config disk (err e) =
        untouched disk 0 (err e) (("cryptosweep: failed to acquire lock: " <> message e) ∷ [])
    after_lock config disk (ok _) = exit_of (run config w J disk) (run config w J disk).result

    -- `main`, for what loading the configuration gave and the answers to the lock's calls.
    unfoldable pub main : Disk → Exit
    main disk = elim loaded [
      | err e ↦ untouched disk 1 (err e) []
      | ok config ↦ elim (Notifier.new config.telegram_bot_token config.telegram_chat_id) [
        | err e ↦ untouched disk 1 (err e) []
        | ok notifier ↦ after_lock config disk (acquire_lock opened locked)
      ]
    ]

    -- `main` with the creation of the explorers. `none` is a panic.
    unfoldable pub try_main : (Chain → Option (BlockExplorer Decimal)) → Disk → Option Exit
    try_main new disk = elim loaded [
      | err e ↦ some (untouched disk 1 (err e) [])
      | ok config ↦ elim (Notifier.new config.telegram_bot_token config.telegram_chat_id) [
        | err e ↦ some (untouched disk 1 (err e) [])
        | ok notifier ↦ elim (acquire_lock opened locked) [
          | err e ↦ some (after_lock config disk (err e))
          | ok _ ↦ Option.map (λ o. exit_of o o.result) (try_run config w new J disk)
        ]
      ]
    ]
