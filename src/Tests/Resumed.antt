-- ===== src/Tests/Resumed.antt =====
-- main.rs with explorer.rs on a concrete node: a run that saves what it has found in block 805.
use cryptosweep.Base.{
  ◌≡◌, refl, ap, sym, inl, String, ℕ, Bool, none, some, [], ◌∷◌, arith, ◌==◌, ==_iff, ◌&&◌,
  string_eq, nat_eq, if◌then◌else◌, Bool-cases, inr,
}
use cryptosweep.Base.Dict
use cryptosweep.Base.Dict.{Dict}
use cryptosweep.Base.StringSet
use cryptosweep.Base.StringSet.{StringSet}
use cryptosweep.Types.Chain.{Chain, ethereum, chain_eq}
use cryptosweep.Types.Error.{Result, ok, err, explorer}
use cryptosweep.Types.State.{PersistedState, BankPayment, LastSeenBlock, empty_state}
use cryptosweep.Types.Traits.{BlockExplorer}
use cryptosweep.Config.{confirmation_blocks_for, start_block_for}
use cryptosweep.Base.FilePath.{
  with_extension, has_parent, trim_end, is_blank, after_last, up_to_last, is_file_name, file_stem,
  before_last,
}
use cryptosweep.Base.StringSet.{contains}
use cryptosweep.Base.Text.{lacks}
use cryptosweep.Orchestrator.ChainResult.{add, sum, latest_seen_block}
use cryptosweep.Orchestrator.Scan.{
  required_confirmations, send_if_eligible, send_all, address_scan, option_since_block,
  scan_addresses, is_chain_stale,
}
use cryptosweep.Orchestrator.Scan
use cryptosweep.Orchestrator.Pass.{discover, check_of}
use cryptosweep.Orchestrator.Pass
use cryptosweep.Persistence.File.{Serde, load_state, read_to_string, save_state}
use cryptosweep.Persistence.Prune.{prune_stale_entries}
use cryptosweep.Main.{World, pass_of, next_state, save}
use cryptosweep.Main.Again.{NotPruned}
use cryptosweep.Main.Detected.{IsHandledIn, saved_detects}
use cryptosweep.Tests.Detected.{
  paid, logs, node, parse, received, live, node-ServesBlocks, answers, reads, served,
}
use cryptosweep.Tests.Files.{state_file-EndsInName}
use cryptosweep.Tests.Fixtures.{micro, now, settings, monitored}
use cryptosweep.Tests.Invocation.{world}

-- The state behind the run.
abbrev kept : PersistedState ℕ
kept = record {
  bank_payments = [];
  processed_tx_hashes = "0xaa" ∷ [];
  last_seen_block = (ethereum, record { block_number = 810; updated_at = now }) ∷ [];
}

-- A serializer of this state alone.
abbrev is_kept : String → Chain → LastSeenBlock → Bool
is_kept h ch l = h == "0xaa" && (ch == ethereum && (l.block_number == 810 && l.updated_at == now))

abbrev print_fields :
    Dict String (BankPayment ℕ) → StringSet → Dict Chain LastSeenBlock → Result String String
print_fields [] (h ∷ []) ((ch, l) ∷ []) = if is_kept h ch l then ok "kept" else err "unsupported"
print_fields _ _ _ = err "unsupported"

abbrev only_kept : Serde ℕ
only_kept = record {
  from_str = λ text. ok kept;
  to_string_pretty = λ s. print_fields s.bank_payments s.processed_tx_hashes s.last_seen_block;
}

print_fields-kept :
    (ps : Dict String (BankPayment ℕ)) (hs : StringSet) (fs : Dict Chain LastSeenBlock)
    (text : String)
    → print_fields ps hs fs ≡ ok text
    → kept ≡ record { bank_payments = ps; processed_tx_hashes = hs; last_seen_block = fs }
print_fields-kept [] (h ∷ []) ((ch, l) ∷ []) text e = elim (Bool-cases (is_kept h ch l)) [
  | inr other ↦ absurd (cc (rw other at e))
  | inl good ↦
      let a : h ≡ "0xaa" = (==_iff h "0xaa").0 (ground (arith, good)) in
      let c : ch ≡ ethereum = (==_iff ch ethereum).0 (ground (arith, good)) in
      let n : l.block_number ≡ 810 = ground (arith, good) in
      let t : l.updated_at ≡ now = ground (arith, good) in
      λ i. record {
        bank_payments = [];
        processed_tx_hashes = sym a i ∷ [];
        last_seen_block = (sym c i, record { block_number = sym n i; updated_at = sym t i }) ∷ [];
      }
]
print_fields-kept [] (h ∷ []) ((ch, l) ∷ x ∷ fs) text e = absurd (cc e)
print_fields-kept [] (h ∷ []) [] text e = absurd (cc e)
print_fields-kept [] (h ∷ x ∷ hs) fs text e = absurd (cc e)
print_fields-kept [] [] fs text e = absurd (cc e)
print_fields-kept (p ∷ ps) hs fs text e = absurd (cc e)

back :
    (s : PersistedState ℕ) (text : String)
    → only_kept.to_string_pretty s ≡ ok text
    → only_kept.from_str text ≡ ok s
back s text e =
    ap ok (print_fields-kept s.bank_payments s.processed_tx_hashes s.last_seen_block text e)

abbrev explorers_here : Chain → BlockExplorer ℕ
explorers_here ethereum = live
explorers_here _ = record {
  get_block_height = err (explorer "unavailable");
  fetch_usdc_receives = λ address since to. err (explorer "unavailable");
}

abbrev here : World ℕ
here = record (world 1000) { explorers = explorers_here; serde = only_kept }

abbrev after_run : PersistedState ℕ
after_run = next_state micro settings here empty_state

since :
    option_since_block micro
      (check_of (pass_of micro settings here empty_state) ethereum (here.explorers ethereum))
    ≡ some 800
unfolding option_since_block start_block_for Dict.get chain_eq
since = refl

after_run-kept : after_run ≡ kept
unfolding discover Scan.run scan_addresses address_scan send_all send_if_eligible
    required_confirmations confirmation_blocks_for option_since_block start_block_for sum add
    is_chain_stale Dict.get contains StringSet.insert string_eq chain_eq nat_eq prune_stale_entries
    Pass.run Dict.insert Dict.remove StringSet.insert_all StringSet.remove_all Dict.retain
    latest_seen_block
after_run-kept = refl

saves : (save micro settings here empty_state []).result ≡ ok tt
unfolding discover Scan.run scan_addresses address_scan send_all send_if_eligible
    required_confirmations confirmation_blocks_for option_since_block start_block_for sum add
    is_chain_stale Dict.get contains StringSet.insert string_eq chain_eq nat_eq prune_stale_entries
    Pass.run Dict.insert Dict.remove StringSet.insert_all StringSet.remove_all Dict.retain
    latest_seen_block save_state with_extension has_parent trim_end is_blank after_last up_to_last
    is_file_name file_stem before_last lacks
saves = refl

fresh : NotPruned micro settings here empty_state "0xaa"
unfolding discover Scan.run scan_addresses address_scan send_all send_if_eligible
    required_confirmations confirmation_blocks_for option_since_block start_block_for sum add
    is_chain_stale Dict.get contains StringSet.insert string_eq chain_eq nat_eq Pass.run Dict.insert
    StringSet.insert_all latest_seen_block
fresh = λ (e, i, s). absurd i

frontier :
    Dict.get ethereum after_run.last_seen_block
    ≡ some (record { block_number = 810; updated_at = now })
unfolding Dict.get chain_eq
frontier = ap (λ (s : PersistedState ℕ). Dict.get ethereum s.last_seen_block) after_run-kept

saved_detects_example :
    (s : PersistedState ℕ) × (load_state only_kept
        (read_to_string none "state.json" (save micro settings here empty_state []).disk)
      ≡ ok s)
    × (Dict.get ethereum s.last_seen_block ≡ some (record { block_number = 810; updated_at = now }))
    × IsHandledIn micro parse node now settings here empty_state ethereum s monitored received
saved_detects_example =
    saved_detects micro parse node now settings here empty_state ethereum 100 800 820 805
      (record { block_number = 810; updated_at = now }) monitored monitored.address logs paid
      received [] refl node-ServesBlocks (omega arith) (omega arith) answers refl since back
      state_file-EndsInName saves fresh frontier (inl refl) (omega arith) (omega arith) served reads
      refl
