-- ===== src/Tests/Fetch.antt =====
-- explorer.rs: scans of a provider that serves the logs of its blocks.
use cryptosweep.Base.{
  ◌≡◌, refl, String, ℕ, ◌+◌, ◌-◌, leb, none, some, List, [], ◌∷◌, arith, true, false, string_eq,
  nat_eq, u64_max,
}
use cryptosweep.Types.Chain.{ethereum, eth_get_logs_chunk_size}
use cryptosweep.Types.Error.{Result, ok, err, explorer}
use cryptosweep.Types.State.{UsdcReceive}
use cryptosweep.Explorer.Chunks.{Chunk, Fetched, scan}
use cryptosweep.Explorer.Chunks.Exact.{block_range, IsExact}
use cryptosweep.Explorer.Chunks.Requests.{scan-AgreeInside}
use cryptosweep.Explorer.Chunks.Whole.{AllAnswered, scan-any_size}
use cryptosweep.Explorer.Chunks.Termination.{scan_diverges}
use cryptosweep.Explorer.Logs.{Log, Filter, transfer_filter}
use cryptosweep.Explorer.Logs.Parsed.{parsed}
use cryptosweep.Explorer.Live.{LiveBlockExplorer, fetch_usdc_receives}
use cryptosweep.Explorer.Live.Exact.{live_chunk, fetch_usdc_receives-IsExact}
use cryptosweep.Tests.Fixtures.{micro, now}

-- Each block holds one transfer of as many millionths as its number.
abbrev transfer : ℕ → UsdcReceive ℕ
transfer b = record { tx_hash = "0xaa"; amount = b; block_number = b; fetched_at = now }

abbrev transfers : ℕ → List (UsdcReceive ℕ)
transfers b = transfer b ∷ []

-- Requests that reach behind block 7 fail.
abbrev shaky : ℕ → ℕ → Chunk ℕ
shaky a b = elim (leb b 7) [
  | true ↦ ok (block_range transfers a (b + 1 - a))
  | false ↦ err (explorer "limit")
]

shaky-Answers :
    (a b : ℕ) (c : List (UsdcReceive ℕ))
    → shaky a b ≡ ok c
    → c ≡ block_range transfers a (b + 1 - a)
shaky-Answers a b c h = ground arith

abbrev shifted : ℕ → ℕ → Chunk ℕ
shifted a b = elim (leb 2 a) [ true ↦ shaky a b | false ↦ err (explorer "never asked") ]

scan-AgreeInside_example : scan shaky 3 9 10 2 [] none ≡ scan shifted 3 9 10 2 [] none
scan-AgreeInside_example =
    scan-AgreeInside 3 2 9 shaky shifted (λ a b from order to span. ground arith) (omega arith)
      (omega arith) 10 [] none

-- A node that answers every request.
abbrev open_node : ℕ → ℕ → Chunk ℕ
open_node a b = ok (block_range transfers a (b + 1 - a))

open_node-Answers :
    (a b : ℕ) (c : List (UsdcReceive ℕ))
    → open_node a b ≡ ok c
    → c ≡ block_range transfers a (b + 1 - a)
open_node-Answers a b c h = cc h

open_node-AllAnswered : (size : ℕ) → AllAnswered open_node size 2 9
open_node-AllAnswered size a from order = (_, refl)

-- Chunks of three and of five blocks.
scan-any_size_example : scan open_node 3 9 10 2 [] none ≡ scan open_node 5 9 12 2 [] none
scan-any_size_example =
    scan-any_size transfers 2 9 (omega arith) open_node open_node 3 5 10 12 open_node-Answers
      open_node-Answers (open_node-AllAnswered 3) (open_node-AllAnswered 5) (omega arith)
      (omega arith) (omega arith)

abbrev silent : ℕ → ℕ → Chunk ℕ
silent a b = ok []

scan_diverges_example : scan silent 10000 u64_max 1000 (u64_max - 5) [] none ≡ none
scan_diverges_example =
    scan_diverges silent 10000 (λ a b. ([], refl)) 1000 (u64_max - 5) [] none (omega arith)

abbrev logs : ℕ → List Log
logs b = record { block_number = some b; transaction_hash = some "0xaa"; raw_amount = b } ∷ []

abbrev node_logs : Filter String → Result (List Log) String
node_logs f = ok (block_range logs f.from_block (f.to_block + 1 - f.from_block))

-- A node whose addresses are texts.
abbrev node : LiveBlockExplorer String
node = record {
  chain = ethereum;
  usdc_contract = "usdc";
  provider = record { get_block_number = ok 1000; get_logs = node_logs };
}

node-ServesBlocks :
    (from to : ℕ) (ls : List Log)
    → node_logs (transfer_filter "usdc" "0xa1" from to) ≡ ok ls
    → ls ≡ block_range logs from (to + 1 - from)
node-ServesBlocks from to ls h = ground arith

fetch_usdc_receives-IsExact_example :
    (r : Fetched ℕ) × (fetch_usdc_receives micro (λ s. ok s) node 1000 now "0xa1" 100 1000 ≡ some r)
    × IsExact
        (live_chunk micro (λ s. ok s) node "0xa1" now)
        (eth_get_logs_chunk_size ethereum)
        (λ b. parsed micro now (logs b))
        100
        1000
        r
fetch_usdc_receives-IsExact_example =
    fetch_usdc_receives-IsExact micro (λ s. ok s) node 1000 now "0xa1" "0xa1" 100 1000 logs refl
      node-ServesBlocks (omega arith) (omega arith)
