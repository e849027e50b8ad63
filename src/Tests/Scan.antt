-- ===== src/Tests/Scan.antt =====
-- orchestrator.rs: the check of a chain on concrete answers.
use cryptosweep.Base.{◌≡◌, ◌≢◌, refl, ◌↔◌, inl, ℕ, none, some, [], ◌∷◌, arith, string_eq, nat_eq}
use cryptosweep.Base.Dict
use cryptosweep.Base.StringSet
use cryptosweep.Types.Chain.{chain_eq, chain_name}
use cryptosweep.Types.Error.{explorer, message, err}
use cryptosweep.Config.{confirmation_blocks_for, start_block_for}
use cryptosweep.Orchestrator.ChainResult.{add, sum, latest_seen_block}
use cryptosweep.Orchestrator.Scan.{
  ChainDepositCheck, is_chain_stale, required_confirmations, nothing_sent, deposit_of,
  send_if_eligible, send_all, address_scan, option_since_block, scan_addresses, run,
}
use cryptosweep.Orchestrator.Scan.Address.{IsConsistent, send_all-nothing-IsConsistent}
use cryptosweep.Orchestrator.Scan.Run.{IsCovered, run_resumes}
use cryptosweep.Orchestrator.Scan.Errors.{Trouble, run_errors_iff}
use cryptosweep.Tests.Fixtures.{micro, monitored, old_receive, young_receive, check}

-- The check sends the old receive and stops ten blocks before the head.
run_frontier : latest_seen_block (run micro check).0 ≡ some 990
unfolding run scan_addresses address_scan send_all send_if_eligible required_confirmations
    confirmation_blocks_for option_since_block start_block_for sum add latest_seen_block Dict.get
    StringSet.contains StringSet.insert string_eq chain_eq nat_eq
run_frontier = refl

run_since : option_since_block micro check ≡ some 800
unfolding option_since_block start_block_for Dict.get chain_eq
run_since = refl

run_resumes_example :
    IsCovered micro check 800 1000 (run micro check).0.processed_tx_hashes 990 monitored
run_resumes_example =
    run_resumes micro check 800 1000 990 monitored refl run_since (omega arith) run_frontier
      (inl refl)

old_sent :
    send_if_eligible micro check monitored 1000 old_receive []
    ≡ some (deposit_of micro check monitored old_receive)
unfolding send_if_eligible required_confirmations confirmation_blocks_for Dict.get
    StringSet.contains string_eq chain_eq
old_sent = refl

young_skipped : send_if_eligible micro check monitored 1000 young_receive [] ≡ none
unfolding send_if_eligible required_confirmations confirmation_blocks_for Dict.get
    StringSet.contains string_eq chain_eq
young_skipped = refl

send_all-nothing-IsConsistent_example : IsConsistent micro check monitored 1000 (
    send_all micro check monitored 1000
      (old_receive ∷ old_receive ∷ young_receive ∷ [])
      nothing_sent)
send_all-nothing-IsConsistent_example =
    send_all-nothing-IsConsistent micro check monitored 1000
      (old_receive ∷ old_receive ∷ young_receive ∷ [])

-- A node that is down, asked by a chain that has never been scanned.
abbrev failing : ChainDepositCheck ℕ
failing = record check {
  explorer = record {
    get_block_height = err (explorer "down");
    fetch_usdc_receives = λ address since to. err (explorer "down");
  };
}

failing_errors :
    (run micro failing).0.errors ≡ "ethereum: block height failed: Block explorer error: down" ∷ []
unfolding run is_chain_stale Dict.get chain_name message
failing_errors = refl

run_errors_iff_example : ((run micro failing).0.errors ≢ []) ↔ Trouble micro failing
run_errors_iff_example = run_errors_iff micro failing
