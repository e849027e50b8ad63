-- ===== src/Tests/Processes.antt =====
-- main.rs on concrete inputs: two invocations, of which the first is killed in the middle of its
-- save.
use cryptosweep.Base.{◌≡◌, refl, ◌⊎◌, inl, inr, ℕ, none, some, [], ◌∷◌, In, string_eq, nat_eq}
use cryptosweep.Base.Dict
use cryptosweep.Base.StringSet
use cryptosweep.Base.StringSet.{contains}
use cryptosweep.Base.FilePath.{
  with_extension, has_parent, trim_end, is_blank, after_last, up_to_last, is_file_name, file_stem,
  before_last,
}
use cryptosweep.Base.Text.{lacks}
use cryptosweep.Types.Chain.{chain_eq}
use cryptosweep.Types.Error.{ok}
use cryptosweep.Types.State.{empty_state}
use cryptosweep.Config.{confirmation_blocks_for, start_block_for}
use cryptosweep.Orchestrator.ChainResult.{add, sum, latest_seen_block}
use cryptosweep.Orchestrator.Scan.{
  required_confirmations, send_if_eligible, send_all, address_scan, option_since_block,
  scan_addresses, is_chain_stale,
}
use cryptosweep.Orchestrator.Scan
use cryptosweep.Orchestrator.Pass.{discover, sent_deposits}
use cryptosweep.Orchestrator.Pass
use cryptosweep.Persistence.File.{load_state, read_to_string, save_state}
use cryptosweep.Persistence.Prune.{prune_stale_entries}
use cryptosweep.Main.{World, pass_of, save}
use cryptosweep.Main.Processes.{
  idle, locked, running, lost, System, set_phase, at_rest, takes_lock, loads, sends, is_killed,
  Reach, here, next,
}
use cryptosweep.Main.Processes.Once.{sends_once}
use cryptosweep.Tests.Encoding.{jwt}
use cryptosweep.Tests.Files.{small, parse-print, state_file-EndsInName}
use cryptosweep.Tests.Fixtures.{micro, deposit}
use cryptosweep.Tests.Invocation.{two_addresses, world, torn}

abbrev worlds : ℕ → World ℕ
worlds i = world 1000

pass_sends : In deposit (sent_deposits micro (pass_of micro two_addresses (world 1000) empty_state))
unfolding discover Scan.run scan_addresses address_scan send_all send_if_eligible
    required_confirmations confirmation_blocks_for option_since_block start_block_for sum add
    is_chain_stale Dict.get contains StringSet.insert string_eq chain_eq nat_eq
pass_sends = inl refl

reads_empty : load_state small (read_to_string none "state.json" []) ≡ ok empty_state
unfolding load_state Dict.get
reads_empty = refl

reads_torn : load_state small (read_to_string none "state.json" torn) ≡ ok empty_state
unfolding load_state Dict.get string_eq
reads_torn = refl

torn_on_the_way : In torn (save micro two_addresses (world 1000) empty_state []).before_rename
unfolding discover Scan.run scan_addresses address_scan send_all send_if_eligible
    required_confirmations confirmation_blocks_for option_since_block start_block_for sum add
    is_chain_stale Dict.get contains StringSet.insert string_eq chain_eq nat_eq save_state
    prune_stale_entries Pass.run Dict.insert Dict.remove StringSet.insert_all StringSet.remove_all
    Dict.retain latest_seen_block with_extension has_parent trim_end is_blank after_last up_to_last
    is_file_name file_stem before_last lacks
torn_on_the_way = inr (inl refl)

abbrev ReachHere : System ℕ → Type 0
ReachHere = Reach micro two_addresses worlds "0xaa" (at_rest [])

abbrev first_locks : System ℕ
first_locks = record (at_rest []) { phase = set_phase 0 locked (λ i. idle); holder = some 0 }

first_locks-ReachHere : ReachHere first_locks
first_locks-ReachHere = next here (takes_lock 0 refl refl)

abbrev first_sends : System ℕ
first_sends = record first_locks {
  phase = set_phase 0 (running empty_state) first_locks.phase;
  log = (0, deposit) ∷ [];
}

first_sends-ReachHere : ReachHere first_sends
unfolding nat_eq
first_sends-ReachHere =
    next (next first_locks-ReachHere (loads 0 empty_state refl reads_empty))
      (sends 0 empty_state deposit refl pass_sends)

-- The first is killed; the second takes the lock and reads the state.
abbrev second_reads : System ℕ
second_reads = record {
  phase =
      set_phase 1 (running empty_state) (set_phase 1 locked (set_phase 0 lost first_sends.phase));
  holder = some 1;
  disk = torn;
  log = first_sends.log;
}

second_reads-ReachHere : ReachHere second_reads
unfolding nat_eq
second_reads-ReachHere =
    next
      (next (next first_sends-ReachHere (is_killed 0 empty_state torn refl torn_on_the_way))
        (takes_lock 1 refl refl))
      (loads 1 empty_state refl reads_torn)

sends_once_example : (◌≡◌ {A = ℕ} 0 1) ⊎ (second_reads.phase 0 ≡ lost)
unfolding nat_eq
sends_once_example =
    sends_once micro jwt two_addresses worlds "0xaa" small parse-print (λ i. refl)
      state_file-EndsInName [] second_reads 1 0 empty_state deposit deposit second_reads-ReachHere
      refl pass_sends refl (inl refl) refl
