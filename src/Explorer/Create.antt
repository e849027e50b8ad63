-- ===== src/Explorer/Create.antt =====
-- explorer.rs: the explorer of a chain, as the program creates it. The parsers of texts and the
-- transport belong to the libraries.
pub mod Own
use cryptosweep.Base.{String, ℕ, Option, none, some}
use cryptosweep.Types.Chain.{Chain, usdc_contract}
use cryptosweep.Types.Error.{Result, ok, err}
use cryptosweep.Explorer.Live.{Provider, LiveBlockExplorer, rpc_url}

-- `RetryBackoffLayer`
pub record RetryPolicy : Type 0 where
  pub max_retries : ℕ
  pub initial_backoff_ms : ℕ
  pub compute_units_per_sec : ℕ

abbrev pub retry_policy : RetryPolicy
retry_policy = record { max_retries = 5; initial_backoff_ms = 500; compute_units_per_sec = 330 }

module _ {Url Address : Type 0} (parse_url : String → Result Url String)
    (parse : String → Result Address String) (connect : RetryPolicy → Url → Provider Address) where
  -- `none` is a panic.
  unfoldable pub new : Chain → Option (LiveBlockExplorer Address)
  new chain = elim (parse_url (rpc_url chain)) [
    | err e ↦ none
    | ok url ↦ elim (parse (usdc_contract chain)) [
      | err e ↦ none
      | ok contract ↦
          some (record {
            chain = chain;
            usdc_contract = contract;
            provider = connect retry_policy url;
          })
    ]
  ]
