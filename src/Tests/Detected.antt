-- ===== src/Tests/Detected.antt =====
-- orchestrator.rs with explorer.rs on a concrete node: one transfer, in block 805.
use cryptosweep.Base.{
  ◌≡◌, refl, inl, In, String, ℕ, ◌+◌, ◌-◌, ◌*◌, ◌^◌, some, List, [], ◌∷◌, arith, ◌==◌, nat_eq,
  string_eq, if◌then◌else◌,
}
use cryptosweep.Base.Dict
use cryptosweep.Base.StringSet
use cryptosweep.Types.Chain.{ethereum, chain_eq, eth_get_logs_chunk_size}
use cryptosweep.Types.Error.{Result, ok}
use cryptosweep.Types.State.{UsdcReceive, empty_state}
use cryptosweep.Config.{confirmation_blocks_for, start_block_for}
use cryptosweep.Explorer.Chunks.{Fetched, scan}
use cryptosweep.Explorer.Chunks.Exact.{block_range}
use cryptosweep.Explorer.Logs.{
  Log, Filter, transfer_filter, receive_of_log, collect, u256_to_decimal, fetch_receives_chunk,
}
use cryptosweep.Explorer.Live.{LiveBlockExplorer, parse_address, fetch_usdc_receives}
use cryptosweep.Orchestrator.ChainResult.{add, sum, latest_seen_block}
use cryptosweep.Orchestrator.Scan.{
  ChainDepositCheck, required_confirmations, send_if_eligible, send_all, address_scan,
  option_since_block, scan_addresses,
}
use cryptosweep.Orchestrator.Scan
use cryptosweep.Orchestrator.Pass.{DepositCheck, check_of, discover, run}
use cryptosweep.Orchestrator.Pass.Detected.{IsHandled, pass_detects}
use cryptosweep.Types.Traits.{BlockExplorer}
use cryptosweep.Tests.Fixtures.{micro, now, monitored, pass_from}

abbrev pub paid : Log
paid = record { block_number = some 805; transaction_hash = some "0xaa"; raw_amount = 7 * 10 ^ 6 }

abbrev pub logs : ℕ → List Log
logs b = if b == 805 then paid ∷ [] else []

abbrev node_logs : Filter String → Result (List Log) String
node_logs f = ok (block_range logs f.from_block (f.to_block + 1 - f.from_block))

abbrev pub node : LiveBlockExplorer String
node = record {
  chain = ethereum;
  usdc_contract = "usdc";
  provider = record { get_block_number = ok 820; get_logs = node_logs };
}

pub node-ServesBlocks :
    (from to : ℕ) (ls : List Log)
    → node_logs (transfer_filter "usdc" monitored.address from to) ≡ ok ls
    → ls ≡ block_range logs from (to + 1 - from)
node-ServesBlocks from to ls h = ground arith

abbrev pub parse : String → Result String String
parse s = ok s

abbrev pub received : UsdcReceive ℕ
received = record { tx_hash = "0xaa"; amount = 7 * 10 ^ 6; block_number = 805; fetched_at = now }

abbrev pub answer : Fetched ℕ
answer = ok (record { receives = received ∷ []; confirmed_frontier = 820 })

pub answers : fetch_usdc_receives micro parse node 100 now monitored.address 800 820 ≡ some answer
unfolding fetch_usdc_receives parse_address scan fetch_receives_chunk collect receive_of_log
    u256_to_decimal block_range nat_eq eth_get_logs_chunk_size
answers = refl

abbrev pub live : BlockExplorer ℕ
live = record { get_block_height = ok 820; fetch_usdc_receives = λ address since to. answer }

abbrev live_pass : DepositCheck ℕ
live_pass = record (pass_from empty_state) { explorers = (ethereum, live) ∷ [] }

since : option_since_block micro (check_of live_pass ethereum live) ≡ some 800
unfolding option_since_block start_block_for Dict.get chain_eq
since = refl

pub reads : receive_of_log micro now paid ≡ ok received
unfolding receive_of_log u256_to_decimal
reads = refl

pub served : In paid (logs 805)
unfolding nat_eq
served = inl refl

has : Dict.get ethereum live_pass.explorers ≡ some live
unfolding Dict.get chain_eq
has = refl

frontier :
    Dict.get ethereum (run micro live_pass []).1.last_seen_block
    ≡ some (record { block_number = 810; updated_at = now })
unfolding run discover Scan.run scan_addresses address_scan send_all send_if_eligible
    required_confirmations confirmation_blocks_for option_since_block start_block_for sum add
    latest_seen_block Dict.get Dict.insert StringSet.contains StringSet.insert StringSet.insert_all
    string_eq chain_eq nat_eq
frontier = refl

pass_detects_example : IsHandled micro parse node now live_pass [] ethereum live monitored received
pass_detects_example =
    pass_detects micro parse node now live_pass [] ethereum live 100 800 820 805
      (record { block_number = 810; updated_at = now }) monitored monitored.address logs paid
      received has refl node-ServesBlocks (omega arith) (omega arith) answers refl since frontier
      (inl refl) (omega arith) (omega arith) served reads refl
