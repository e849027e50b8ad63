-- ===== src/Tests/Invocation.antt =====
-- main.rs on concrete inputs: runs in a row, and one that is killed.
use cryptosweep.Base.{
  ◌≡◌, ◌≢◌, ◌⊎◌, In-append_left, refl, ℕ, ◌*◌, ◌^◌, true, none, [], ◌∷◌, In, inl, inr, ◌==◌,
  string_eq, nat_eq,
}
use cryptosweep.Base.Dict
use cryptosweep.Base.StringSet
use cryptosweep.Base.StringSet.{contains}
use cryptosweep.Base.FilePath.{
  with_extension, has_parent, trim_end, is_blank, after_last, up_to_last, is_file_name, file_stem,
  before_last,
}
use cryptosweep.Base.Text.{lacks}
use cryptosweep.Types.Chain.{Chain, ethereum, chain_eq}
use cryptosweep.Types.Error.{AppError, explorer, other, ok, err}
use cryptosweep.Types.State.{PersistedState, EligibleDeposit, empty_state}
use cryptosweep.Types.Traits.{BlockExplorer}
use cryptosweep.Config.{CryptoSweepConfig, confirmation_blocks_for, start_block_for}
use cryptosweep.Coinbase.Auth.{parse_pem_key}
use cryptosweep.Coinbase.Client
use cryptosweep.Notifier.{ℤ, negsuc, pos_overflow, parse_i64, TelegramNotifier}
use cryptosweep.Notifier
use cryptosweep.Orchestrator.ChainResult.{add, sum, latest_seen_block}
use cryptosweep.Orchestrator.Scan.{
  required_confirmations, send_if_eligible, send_all, address_scan, option_since_block,
  scan_addresses, is_chain_stale,
}
use cryptosweep.Orchestrator.Scan
use cryptosweep.Orchestrator.Pass.{discover, sent_deposits}
use cryptosweep.Orchestrator.Pass
use cryptosweep.Persistence.File.{Disk, load_state, read_to_string, save_state}
use cryptosweep.Persistence.Lock.{acquire_lock}
use cryptosweep.Persistence.Prune.{prune_stale_entries}
use cryptosweep.Main.{World, next_state, save, run, main}
use cryptosweep.Main.Kill.{killed, HasSaved, killed_resends}
use cryptosweep.Main.Again.{NotPruned}
use cryptosweep.Main.History.{Later, here, saved, unsaved, run_again}
use cryptosweep.Tests.Encoding.{jwt}
use cryptosweep.Tests.Files.{small, smooth, parse-print, state_file-EndsInName}
use cryptosweep.Tests.Fixtures.{micro, now, settings, monitored, answering, clock, deposit}

-- Two addresses, of which the explorer answers for the first alone: no frontier is recorded.
abbrev pub two_addresses : CryptoSweepConfig ℕ
two_addresses = record settings {
  deposit_addresses = monitored ∷ record monitored { address = "0xb2" } ∷ [];
  telegram_chat_id = "42";
}

abbrev pub unavailable : AppError
unavailable = explorer "unavailable"

abbrev first_only : BlockExplorer ℕ → BlockExplorer ℕ
first_only e = record e {
  fetch_usdc_receives = λ address since to. elim (address == monitored.address) [
    | true ↦ e.fetch_usdc_receives address since to
    | _ ↦ err unavailable
  ];
}

abbrev down : BlockExplorer ℕ
down = record {
  get_block_height = err unavailable;
  fetch_usdc_receives = λ address since to. err unavailable;
}

abbrev explorers_at : ℕ → Chain → BlockExplorer ℕ
explorers_at height ethereum = first_only (record answering { get_block_height = ok height })
explorers_at height _ = down

abbrev pub world : ℕ → World ℕ
world height = record {
  denied = none;
  explorers = explorers_at height;
  send = λ d. true;
  clock = clock;
  liquidations = [];
  pruned_at = now;
  serde = small;
  answers = smooth;
}

abbrev later_deposit : EligibleDeposit ℕ
later_deposit = record deposit { tx_hash = "0xbb"; usdc_amount = 7 * 10 ^ 6 }

first_sends : In deposit (run micro two_addresses (world 1000) jwt []).sent
unfolding run discover Scan.run scan_addresses address_scan send_all send_if_eligible
    required_confirmations confirmation_blocks_for option_since_block start_block_for sum add
    is_chain_stale Dict.get contains StringSet.insert string_eq chain_eq nat_eq load_state
    Client.new parse_pem_key
first_sends = inl refl

abbrev after_first : Disk
after_first = (run micro two_addresses (world 1000) jwt []).disk

first_saves : (save micro two_addresses (world 1000) empty_state []).result ≡ ok tt
unfolding discover Scan.run scan_addresses address_scan send_all send_if_eligible
    required_confirmations confirmation_blocks_for option_since_block start_block_for sum add
    is_chain_stale Dict.get contains StringSet.insert string_eq chain_eq nat_eq save_state
    prune_stale_entries Pass.run Dict.insert Dict.remove StringSet.insert_all StringSet.remove_all
    Dict.retain latest_seen_block with_extension has_parent trim_end is_blank after_last up_to_last
    is_file_name file_stem before_last lacks
first_saves = refl

pub first_reads : load_state small (read_to_string none "state.json" []) ≡ ok empty_state
unfolding load_state Dict.get
first_reads = refl

first_fresh : NotPruned micro two_addresses (world 1000) empty_state "0xaa"
unfolding discover Scan.run scan_addresses address_scan send_all send_if_eligible
    required_confirmations confirmation_blocks_for option_since_block start_block_for sum add
    is_chain_stale Dict.get contains StringSet.insert string_eq chain_eq nat_eq Pass.run Dict.insert
    StringSet.insert_all latest_seen_block
first_fresh = λ (e, i, s). absurd i

-- The second run reads what the first has saved, and saves too.
abbrev second_state : PersistedState ℕ
second_state = next_state micro two_addresses (world 1000) empty_state

second_reads : load_state small (read_to_string none "state.json" after_first) ≡ ok second_state
unfolding discover Scan.run scan_addresses address_scan send_all send_if_eligible
    required_confirmations confirmation_blocks_for option_since_block start_block_for sum add
    is_chain_stale Dict.get contains StringSet.insert string_eq chain_eq nat_eq run load_state
    Client.new parse_pem_key save_state prune_stale_entries Pass.run Dict.insert Dict.remove
    StringSet.insert_all StringSet.remove_all Dict.retain latest_seen_block with_extension
    has_parent trim_end is_blank after_last up_to_last is_file_name file_stem before_last lacks
second_reads = refl

second_saves : (save micro two_addresses (world 1000) second_state after_first).result ≡ ok tt
unfolding discover Scan.run scan_addresses address_scan send_all send_if_eligible
    required_confirmations confirmation_blocks_for option_since_block start_block_for sum add
    is_chain_stale Dict.get contains StringSet.insert string_eq chain_eq nat_eq run load_state
    Client.new parse_pem_key save_state prune_stale_entries Pass.run Dict.insert Dict.remove
    StringSet.insert_all StringSet.remove_all Dict.retain latest_seen_block with_extension
    has_parent trim_end is_blank after_last up_to_last is_file_name file_stem before_last lacks
second_saves = refl

second_fresh : NotPruned micro two_addresses (world 1000) second_state "0xaa"
unfolding discover Scan.run scan_addresses address_scan send_all send_if_eligible
    required_confirmations confirmation_blocks_for option_since_block start_block_for sum add
    is_chain_stale Dict.get contains StringSet.insert string_eq chain_eq nat_eq run load_state
    Client.new parse_pem_key save_state prune_stale_entries Pass.run Dict.insert Dict.remove
    StringSet.insert_all StringSet.remove_all Dict.retain latest_seen_block with_extension
    has_parent trim_end is_blank after_last up_to_last is_file_name file_stem before_last lacks
second_fresh = λ (e, i, s). absurd i

abbrev after_second : Disk
after_second = (run micro two_addresses (world 1000) jwt after_first).disk

-- The third run is killed before it writes anything.
third_begins : In after_second (run micro two_addresses (world 1010) jwt after_second).before_rename
unfolding discover Scan.run scan_addresses address_scan send_all send_if_eligible
    required_confirmations confirmation_blocks_for option_since_block start_block_for sum add
    is_chain_stale Dict.get contains StringSet.insert string_eq chain_eq nat_eq run load_state
    Client.new parse_pem_key save_state prune_stale_entries Pass.run Dict.insert Dict.remove
    StringSet.insert_all StringSet.remove_all Dict.retain latest_seen_block with_extension
    has_parent trim_end is_blank after_last up_to_last is_file_name file_stem before_last lacks
third_begins = inl refl

between : Later micro jwt two_addresses small "0xaa" after_first after_second
between =
    unsaved (world 1010)
      (saved (world 1000) second_state here refl state_file-EndsInName second_reads second_saves
        second_fresh)
      state_file-EndsInName (killed third_begins)

later_sends : In later_deposit (run micro two_addresses (world 1010) jwt after_second).sent
unfolding discover Scan.run scan_addresses address_scan send_all send_if_eligible
    required_confirmations confirmation_blocks_for option_since_block start_block_for sum add
    is_chain_stale Dict.get contains StringSet.insert string_eq chain_eq nat_eq run load_state
    Client.new parse_pem_key save_state prune_stale_entries Pass.run Dict.insert Dict.remove
    StringSet.insert_all StringSet.remove_all Dict.retain latest_seen_block with_extension
    has_parent trim_end is_blank after_last up_to_last is_file_name file_stem before_last lacks
later_sends = inl refl

run_again_example : later_deposit.tx_hash ≢ deposit.tx_hash
run_again_example =
    run_again micro jwt two_addresses (world 1000) (world 1010) [] after_second empty_state deposit
      later_deposit parse-print state_file-EndsInName first_reads first_saves first_fresh
      first_sends between refl later_sends

-- The disk in the middle of the save: the temporary file is empty.
abbrev pub torn : Disk
torn = ("state.json.tmp", "") ∷ []

torn_passed : In torn (run micro two_addresses (world 1000) jwt []).before_rename
unfolding discover Scan.run scan_addresses address_scan send_all send_if_eligible
    required_confirmations confirmation_blocks_for option_since_block start_block_for sum add
    is_chain_stale Dict.get contains StringSet.insert string_eq chain_eq nat_eq run load_state
    Client.new parse_pem_key save_state prune_stale_entries Pass.run Dict.insert Dict.remove
    StringSet.insert_all StringSet.remove_all Dict.retain latest_seen_block with_extension
    has_parent trim_end is_blank after_last up_to_last is_file_name file_stem before_last lacks
torn_passed = inr (inl refl)

killed_resends_example :
    ((run micro two_addresses (world 1000) jwt torn).sent
      ≡ (run micro two_addresses (world 1000) jwt []).sent)
    ⊎ (HasSaved micro jwt two_addresses (world 1000) []
        × ((run micro two_addresses (world 1000) jwt torn).sent
            ≡ (run micro two_addresses
                (world 1000)
                jwt
                (run micro two_addresses (world 1000) jwt []).disk).sent))
killed_resends_example =
    killed_resends micro jwt two_addresses (world 1000) (world 1000) [] torn state_file-EndsInName (
      In-append_left torn (run micro two_addresses (world 1000) jwt []).before_rename _ torn_passed)

exits_normally : (main micro jwt (ok two_addresses) (ok tt) (ok tt) (world 1000) []).code ≡ 0
unfolding main run load_state Dict.get Client.new parse_pem_key Notifier.new acquire_lock nat_eq
exits_normally = refl

locked_exit :
    (main micro jwt (ok two_addresses) (ok tt) (err (other "held")) (world 1000) []).outcome.sent
    ≡ []
unfolding main Notifier.new acquire_lock nat_eq
locked_exit = refl
