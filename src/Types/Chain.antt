-- ===== src/Types/Chain.antt =====
-- types.rs: the supported chains, their contracts and the span of their log requests.
use cryptosweep.Base.{String, ℕ, List, [], ◌∷◌, Eq}

pub data Chain : Type 0 where
  ethereum base arbitrum polygon optimism monad : Chain

-- `Chain::iter()`
abbrev pub chains : List Chain
chains = ethereum ∷ base ∷ arbitrum ∷ polygon ∷ optimism ∷ monad ∷ []

-- The derived `Display`.
unfoldable pub chain_name : Chain → String
chain_name ethereum = "ethereum"
chain_name base = "base"
chain_name arbitrum = "arbitrum"
chain_name polygon = "polygon"
chain_name optimism = "optimism"
chain_name monad = "monad"

unfoldable pub usdc_contract : Chain → String
usdc_contract ethereum = "0xA0b86991c6218b36c1d19D4a2e9Eb0cE3606eB48"
usdc_contract base = "0x833589fCD6eDb6E08f4c7C32D4f71b54bdA02913"
usdc_contract arbitrum = "0xaf88d065e77c8cC2239327C5EDb3A432268e5831"
usdc_contract polygon = "0x3c499c542cEF5E3811e1192ce70d8cC03d5c3359"
usdc_contract optimism = "0x0b2C639c533813f4Aa9D7837CAf62653d097Ff85"
usdc_contract monad = "0x754704Bc059F8C67012fEd69BC8A327a5aafb603"

unfoldable pub eth_get_logs_chunk_size : Chain → ℕ
eth_get_logs_chunk_size monad = 1000
eth_get_logs_chunk_size _ = 10000

Chain-discrete : Discrete Chain
Chain-discrete = hlevel

instance unfoldable pub chain_eq : Eq Chain
unfolding Chain-discrete
chain_eq = record { dec = Chain-discrete }
