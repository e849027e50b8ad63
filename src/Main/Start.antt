-- ===== src/Main/Start.antt =====
-- main.rs: the start of the program, from the environment and the disk.
use cryptosweep.Base.{String, Option, none, some}
use mathlib.Core.Option
use cryptosweep.Types.Decimal.{DecimalLib}
use cryptosweep.Types.Error.{IoError, AppError, Result}
use cryptosweep.Config.{CryptoSweepConfig, TomlConfig, default_config_path, load}
use cryptosweep.Coinbase.Auth.{JwtLib}
use cryptosweep.Persistence.File.{Disk, read_to_string}
use cryptosweep.Coinbase.Client
use cryptosweep.Notifier
use cryptosweep.Types.Chain.{Chain}
use cryptosweep.Types.Traits.{BlockExplorer}
use cryptosweep.Explorer.Live.{Provider, LiveBlockExplorer}
use cryptosweep.Explorer.Create.{RetryPolicy}
use cryptosweep.Explorer.Create
use cryptosweep.Main.{World, Exit, try_main}

module _ (L : DecimalLib) (J : JwtLib) (from_toml : String → Result (TomlConfig L.Decimal) String)
    (report : CryptoSweepConfig L.Decimal → String) (debug : String → String) where
  open L use {Decimal}

  module _ (home : Option String) (denied : Option String) where
    -- What loading the file at a path gives; `debug` is the text of `{:?}`, and `denied` an error
    -- of the read other than a missing file.
    abbrev pub loaded_from : String → Disk → Option (Result (CryptoSweepConfig Decimal) AppError)
    loaded_from path disk =
        load from_toml report home (debug path) (read_to_string denied path disk)

    -- `main` with the environment, for what the creation of an explorer gives. `none` is a panic.
    abbrev pub start :
        Result (Unit {0}) IoError
        → Result (Unit {0}) IoError
        → World Decimal
        → (Chain → Option (BlockExplorer Decimal))
        → Disk
        → Option (Exit L)
    start opened locked w new disk = elim (default_config_path home) [
      | none ↦ none
      | some path ↦ elim (loaded_from path disk) [
        | none ↦ none
        | some loaded ↦ try_main L J loaded opened locked w new disk
      ]
    ]

  module _ {Url Address : Type 0} (parse_url : String → Result Url String)
      (parse : String → Result Address String) (connect : RetryPolicy → Url → Provider Address)
      (answers_of : LiveBlockExplorer Address → BlockExplorer Decimal) where
    -- The creation of an explorer, as the run uses it: by its answers.
    abbrev pub created : Chain → Option (BlockExplorer Decimal)
    created chain = Option.map answers_of (Create.new parse_url parse connect chain)
