-- ===== src/Explorer/Create/Own.antt =====
-- explorer.rs: the creation of an explorer does not panic, and gives the chain its own.
use cryptosweep.Base.{◌≡◌, refl, String, some, true, nat_eq}
use cryptosweep.Types.Address.{validate_eth_address, all_hexdigits, after_two, is_ascii_hexdigit}
use cryptosweep.Types.Chain.{
  Chain, ethereum, base, arbitrum, polygon, optimism, monad, usdc_contract,
}
use cryptosweep.Types.Error.{Result, ok}
use cryptosweep.Explorer.Live.{Provider, LiveBlockExplorer, rpc_url}
use cryptosweep.Explorer.Create.{RetryPolicy, retry_policy, new}

contract-validates : (chain : Chain) → validate_eth_address (usdc_contract chain) ≡ true
unfolding validate_eth_address all_hexdigits after_two is_ascii_hexdigit usdc_contract nat_eq
contract-validates ethereum = refl
contract-validates base = refl
contract-validates arbitrum = refl
contract-validates polygon = refl
contract-validates optimism = refl
contract-validates monad = refl

module _ {Url Address : Type 0} (parse_url : String → Result Url String)
    (parse : String → Result Address String) (connect : RetryPolicy → Url → Provider Address) where
  -- The explorer is the chain's own: it asks the chain's node, with the documented retries, for the
  -- logs of the chain's contract.
  abbrev pub IsOwn : Chain → LiveBlockExplorer Address → Type 0
  IsOwn chain e =
      (url : Url) × (parse_url (rpc_url chain) ≡ ok url)
      × (e.chain ≡ chain)
      × (parse (usdc_contract chain) ≡ ok e.usdc_contract)
      × (e.provider
          ≡ connect
              (record { max_retries = 5; initial_backoff_ms = 500; compute_units_per_sec = 330 })
              url)

  pub new-IsOwn :
      ((chain : Chain) → (url : Url) × (parse_url (rpc_url chain) ≡ ok url))
      → ((s : String) → validate_eth_address s ≡ true → (a : Address) × (parse s ≡ ok a))
      → (chain : Chain)
      → (e : LiveBlockExplorer Address) × (new parse_url parse connect chain ≡ some e)
        × IsOwn chain e
  unfolding new
  new-IsOwn urls parses chain =
      let (url, has) = urls chain in
      let (contract, is) = parses (usdc_contract chain) (contract-validates chain) in
      (
        record { chain = chain; usdc_contract = contract; provider = connect retry_policy url },
        rw (has, is, new) refl,
        (url, has, refl, is, refl),
      )
