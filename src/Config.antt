-- ===== src/Config.antt =====
-- config.rs: the configuration, how it is loaded, and its lookups by chain.
pub mod Fills
pub mod Laws
use cryptosweep.Base.{String, ◌<>◌, ℕ, Bool, true, false, ◌&&◌, not, Option, none, some}
use cryptosweep.Base.{List, [], ◌∷◌, if◌then◌else◌}
use mathlib.Core.Option
use cryptosweep.Base.FilePath.{join}
use cryptosweep.Base.Dict
use cryptosweep.Base.Dict.{Dict}
use cryptosweep.Types.Address.{DepositAddressConfig, validate_eth_address}
use cryptosweep.Types.Chain.{Chain, chain_eq}
use cryptosweep.Types.Error.{IoError, io_message, AppError, config, Result, ok, err, map_err, ◌>>=◌}

abbrev pub default_confirmation_blocks : ℕ
default_confirmation_blocks = 14

pub record CryptoSweepConfig (Decimal : Type 0) : Type 0 where
  pub max_auto_amount : Decimal
  pub default_payment_method_id : String
  pub deposit_addresses : List DepositAddressConfig
  pub confirmation_blocks : Dict Chain ℕ
  pub start_blocks : Dict Chain ℕ
  pub coinbase_api_key : String
  pub coinbase_api_secret : String
  pub telegram_bot_token : String
  pub telegram_chat_id : String
  pub coinbase_usdc_account_id : Option String
  pub coinbase_usd_account_id : Option String
  pub sell_settle_delay_secs : ℕ
  pub state_file : String

unfoldable pub default_sell_settle_delay_secs : ℕ
default_sell_settle_delay_secs = 30

-- `unwrap_or`
abbrev pub or_default : {A : Type 0} → A → Option A → A
or_default d none = d
or_default d (some n) = n

module _ {D : Type 0} where
  unfoldable pub confirmation_blocks_for : CryptoSweepConfig D → Chain → ℕ
  confirmation_blocks_for c chain =
      or_default default_confirmation_blocks (Dict.get chain c.confirmation_blocks)

  unfoldable pub start_block_for : CryptoSweepConfig D → Chain → Option ℕ
  start_block_for c chain = Dict.get chain c.start_blocks

-- `dive`: every address is validated.
unfoldable pub addresses_valid : List DepositAddressConfig → Bool
addresses_valid [] = true
addresses_valid (a ∷ as') = validate_eth_address a.address && addresses_valid as'

abbrev is_empty : List DepositAddressConfig → Bool
is_empty [] = true
is_empty (_ ∷ _) = false

-- The derived `garde::Validate`: `length(min = 1), dive`.
unfoldable pub validate : {D : Type 0} → CryptoSweepConfig D → Bool
unfolding addresses_valid
validate c = not (is_empty c.deposit_addresses) && addresses_valid c.deposit_addresses

-- The fields as a file gives them; those with `#[serde(default)]` may be missing.
pub record TomlConfig (Decimal : Type 0) : Type 0 where
  pub max_auto_amount : Decimal
  pub default_payment_method_id : String
  pub deposit_addresses : Option (List DepositAddressConfig)
  pub confirmation_blocks : Option (Dict Chain ℕ)
  pub start_blocks : Option (Dict Chain ℕ)
  pub coinbase_api_key : String
  pub coinbase_api_secret : String
  pub telegram_bot_token : String
  pub telegram_chat_id : String
  pub coinbase_usdc_account_id : Option String
  pub coinbase_usd_account_id : Option String
  pub sell_settle_delay_secs : Option ℕ
  pub state_file : Option String

-- A path in the program's directory; `home` is the variable `HOME`, and without it the program
-- panics.
abbrev pub in_home : String → Option String → Option String
in_home name none = none
in_home name (some home) = some (join (join home ".cryptosweep") name)

abbrev pub default_state_file : Option String → Option String
default_state_file = in_home "state.json"

abbrev pub default_config_path : Option String → Option String
default_config_path = in_home "config.toml"

-- The default is computed only where the field is missing.
abbrev pub state_file_or : Option String → Option String → Option String
state_file_or home (some file) = some file
state_file_or home none = default_state_file home

-- The derived `Deserialize`, on the fields of the file. `none` is a panic.
abbrev pub filled : {D : Type 0} → TomlConfig D → String → CryptoSweepConfig D
filled t state_file = record {
  max_auto_amount = t.max_auto_amount;
  default_payment_method_id = t.default_payment_method_id;
  deposit_addresses = or_default [] t.deposit_addresses;
  confirmation_blocks = or_default [] t.confirmation_blocks;
  start_blocks = or_default [] t.start_blocks;
  coinbase_api_key = t.coinbase_api_key;
  coinbase_api_secret = t.coinbase_api_secret;
  telegram_bot_token = t.telegram_bot_token;
  telegram_chat_id = t.telegram_chat_id;
  coinbase_usdc_account_id = t.coinbase_usdc_account_id;
  coinbase_usd_account_id = t.coinbase_usd_account_id;
  sell_settle_delay_secs = or_default default_sell_settle_delay_secs t.sell_settle_delay_secs;
  state_file = state_file;
}

abbrev pub with_defaults :
    {D : Type 0} → Option String → TomlConfig D → Option (CryptoSweepConfig D)
with_defaults home t = Option.map (filled t) (state_file_or home t.state_file)

-- The TOML parser and the text of a validation report are the libraries'. `path` is the path as
-- `{:?}` shows it, and `contents` is what reading the file gave. `none` is a panic.
module _ {D : Type 0} (from_toml : String → Result (TomlConfig D) String)
    (report : CryptoSweepConfig D → String) where
  abbrev pub validated : CryptoSweepConfig D → Result (CryptoSweepConfig D) AppError
  validated c = if validate c then ok c else err (config ("Invalid config: " <> report c))

  unfoldable pub load :
      Option String
      → String
      → Result String IoError
      → Option (Result (CryptoSweepConfig D) AppError)
  load home path contents = elim contents [
    | err e ↦ some (err (config ("Failed to read config file " <> path <> ": " <> io_message e)))
    | ok text ↦ elim (from_toml text) [
      | err e ↦ some (err (config ("Failed to parse config file " <> path <> ": " <> e)))
      | ok t ↦ Option.map validated (with_defaults home t)
    ]
  ]
