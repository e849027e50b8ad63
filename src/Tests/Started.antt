-- ===== src/Tests/Started.antt =====
-- config.rs, explorer.rs and main.rs on a concrete home directory and configuration file.
use cryptosweep.Base.{◌≡◌, ◌↔◌, refl, String, ℕ, ◌*◌, ◌^◌, none, some, [], ◌∷◌, string_eq, nat_eq}
use cryptosweep.Base.FilePath.{
  EndsInName, join, ends_in_separator, with_extension, trim_end, is_blank, after_last, up_to_last,
  is_file_name, file_stem, before_last,
}
use cryptosweep.Base.Text.{lacks}
use cryptosweep.Types.Address.{validate_eth_address, all_hexdigits, after_two, is_ascii_hexdigit}
use cryptosweep.Types.Chain.{Chain}
use cryptosweep.Types.Error.{IoError, not_found, io_message, config, Result, ok, err}
use cryptosweep.Config.{
  CryptoSweepConfig, TomlConfig, with_defaults, addresses_valid, validate, load,
  default_sell_settle_delay_secs,
}
use cryptosweep.Config.Laws.{IsValid, load_iff}
use cryptosweep.Config.Fills.{Fills}
use cryptosweep.Explorer.Live.{Provider, LiveBlockExplorer, get_block_height}
use cryptosweep.Explorer.Create.{RetryPolicy}
use cryptosweep.Types.Traits.{BlockExplorer}
use cryptosweep.Persistence.File.{Disk, temp_path}
use cryptosweep.Persistence.File.Default.{with_defaults-EndsInName}
use cryptosweep.Tests.Fixtures.{monitored, settings}

-- A file that gives what must be given, and one address.
abbrev toml : TomlConfig ℕ
toml = record {
  max_auto_amount = 100 * 10 ^ 6;
  default_payment_method_id = "bank";
  deposit_addresses = some (monitored ∷ []);
  confirmation_blocks = none;
  start_blocks = none;
  coinbase_api_key = "";
  coinbase_api_secret = "";
  telegram_bot_token = "";
  telegram_chat_id = "42";
  coinbase_usdc_account_id = none;
  coinbase_usd_account_id = none;
  sell_settle_delay_secs = none;
  state_file = none;
}

abbrev filled_toml : CryptoSweepConfig ℕ
filled_toml = record settings {
  confirmation_blocks = [];
  start_blocks = [];
  telegram_chat_id = "42";
  state_file = join (join "/home/u" ".cryptosweep") "state.json";
}

abbrev from_toml : String → Result (TomlConfig ℕ) String
from_toml text = ok toml

abbrev report : CryptoSweepConfig ℕ → String
report c = "deposit_addresses: length is lower than 1"

abbrev toml_file : Result String IoError
toml_file = ok "toml"

fills : with_defaults (some "/home/u") toml ≡ some filled_toml
unfolding default_sell_settle_delay_secs
fills = refl

loaded : load from_toml report (some "/home/u") "\"config.toml\"" toml_file ≡ some (ok filled_toml)
unfolding load validate addresses_valid validate_eth_address all_hexdigits after_two
    is_ascii_hexdigit nat_eq default_sell_settle_delay_secs
loaded = refl

load_iff_example :
    (load from_toml report (some "/home/u") "\"config.toml\"" toml_file ≡ some (ok filled_toml)) ↔ (
      (text : String) × (t : TomlConfig ℕ) × (toml_file ≡ ok text)
      × (from_toml text ≡ ok t)
      × Fills (some "/home/u") t filled_toml
      × IsValid filled_toml)
load_iff_example =
    load_iff from_toml report (some "/home/u") "\"config.toml\"" toml_file filled_toml

unread_lem :
    load from_toml report none "\"config.toml\""
      (err (not_found "No such file or directory (os error 2)"))
    ≡ some (
        err (
          config
            ("Failed to read config file \"config.toml\": No such file or directory (os error 2)")))
unfolding load io_message
unread_lem = refl

with_defaults-EndsInName_example :
    (filled_toml.state_file ≡ join (join "/home/u" ".cryptosweep") "state.json")
    × EndsInName filled_toml.state_file
    × (temp_path filled_toml.state_file ≡ join (join "/home/u" ".cryptosweep") "state.json.tmp")
with_defaults-EndsInName_example = with_defaults-EndsInName "/home/u" toml filled_toml refl fills

-- Paths of the standard library.
joined : join (join "/home/u/" ".cryptosweep") "state.json" ≡ "/home/u/.cryptosweep/state.json"
unfolding join ends_in_separator after_last lacks string_eq nat_eq
joined = refl

hidden_stem : with_extension "json.tmp" "/a.b/.state" ≡ "/a.b/.state.json.tmp"
unfolding with_extension trim_end is_blank after_last up_to_last is_file_name file_stem before_last
    lacks string_eq nat_eq
hidden_stem = refl

last_dot : with_extension "json.tmp" "a/state.old.json/." ≡ "a/state.old.json.tmp"
unfolding with_extension trim_end is_blank after_last up_to_last is_file_name file_stem before_last
    lacks string_eq nat_eq
last_dot = refl

-- Texts stand for their URLs and addresses.
abbrev accept : String → Result String String
accept s = ok s

abbrev silent : RetryPolicy → String → Provider String
silent policy url = record { get_block_number = ok 1000; get_logs = λ f. ok [] }

-- An explorer that sees no transfer.
abbrev idle : LiveBlockExplorer String → BlockExplorer ℕ
idle e = record {
  get_block_height = get_block_height e;
  fetch_usdc_receives = λ address since to. ok (record { receives = []; confirmed_frontier = to });
}

abbrev disk : Disk
disk = ("/home/u/.cryptosweep/config.toml", "toml") ∷ []
