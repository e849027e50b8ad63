-- ===== src/Explorer/Live.antt =====
-- explorer.rs: the live explorer of one chain.
pub mod Exact
use cryptosweep.Base.{String, ◌<>◌, ℕ, suc, Option, none, some, List, []}
use cryptosweep.Types.Chain.{
  Chain, ethereum, base, arbitrum, polygon, optimism, monad, chain_name, eth_get_logs_chunk_size,
}
use cryptosweep.Types.Decimal.{DecimalLib}
use cryptosweep.Types.Error.{AppError, explorer, Result, ok, err, map_err}
use cryptosweep.Explorer.Chunks.{Fetched, scan}
use cryptosweep.Explorer.Logs.{Log, Filter, fetch_receives_chunk}

unfoldable pub rpc_url : Chain → String
rpc_url ethereum = "https://ethereum.publicnode.com"
rpc_url base = "https://mainnet.base.org"
rpc_url arbitrum = "https://arb1.arbitrum.io/rpc"
rpc_url polygon = "https://polygon-bor-rpc.publicnode.com"
rpc_url optimism = "https://mainnet.optimism.io"
rpc_url monad = "https://rpc1.monad.xyz"

-- A provider of the RPC library: its answers during one run, or the text of its error.
pub record Provider (Address : Type 0) : Type 0 where
  pub get_block_number : Result ℕ String
  pub get_logs : Filter Address → Result (List Log) String

pub record LiveBlockExplorer (Address : Type 0) : Type 0 where
  pub chain : Chain
  pub usdc_contract : Address
  pub provider : Provider Address

module _ {Address : Type 0} where
  unfoldable pub get_block_height : LiveBlockExplorer Address → Result ℕ AppError
  get_block_height e =
      map_err (λ m. explorer (chain_name e.chain <> ": block height failed: " <> m))
        (e.provider).get_block_number

  -- `parse` is the library's parser of addresses.
  unfoldable pub parse_address : (String → Result Address String) → String → Result Address AppError
  parse_address parse s = map_err (λ m. explorer ("Bad address '" <> s <> "': " <> m)) (parse s)

  module _ (L : DecimalLib) (parse : String → Result Address String) where
    -- `fuel` bounds the rounds of the loop, and `now` is the clock's reading. `none` means that the
    -- fuel ran out.
    unfoldable pub fetch_usdc_receives :
        LiveBlockExplorer Address → ℕ → ℕ → String → ℕ → ℕ → Option (Fetched L.Decimal)
    unfolding parse_address
    fetch_usdc_receives e fuel now address since_block to_block =
        elim (parse_address parse address) [
          | err bad ↦ some (err bad)
          | ok deposit_address ↦
              scan
                (λ from to.
                  fetch_receives_chunk L (e.provider).get_logs e.chain e.usdc_contract
                    deposit_address from to now)
                (eth_get_logs_chunk_size e.chain) to_block fuel since_block [] none
        ]
