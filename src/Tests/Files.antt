-- ===== src/Tests/Files.antt =====
-- persistence.rs and config.rs on concrete texts.
use cryptosweep.Base.{
  ◌≡◌, ◌↔◌, refl, subst, String, ℕ, leb, true, none, [], ◌∷◌, arith, string_eq, nat_eq, In,
}
use cryptosweep.Base.Dict
use cryptosweep.Base.Dict.{Dict, keep}
use cryptosweep.Base.StringSet.{contains}
use cryptosweep.Base.FilePath.{
  EndsInName, with_extension, has_parent, trim_end, is_blank, after_last, up_to_last, is_file_name,
  file_stem, before_last,
}
use cryptosweep.Base.Text.{lacks}
use cryptosweep.Types.Error.{Result, ok, err}
use cryptosweep.Types.State.{PersistedState, BankPayment, LastSeenBlock, empty_state}
use cryptosweep.Types.Chain.{Chain}
use cryptosweep.Base.StringSet.{StringSet}
use cryptosweep.Persistence.Prune.{cutoff_at, prune_stale_entries}
use cryptosweep.Persistence.Prune.Laws.{IsStale, prune_stale_entries_lem}
use cryptosweep.Persistence.File.{Disk, Serde, SaveAnswers, read_to_string, load_state, save_state}
use cryptosweep.Persistence.File.Laws.{IsAtomic, save_state-IsAtomic, load_state-save_state}
use cryptosweep.Tests.Fixtures.{now, old_payment}

-- A state with an old record and two hashes.
abbrev aged : PersistedState ℕ
aged = record {
  bank_payments = ("old", old_payment) ∷ [];
  processed_tx_hashes = "0xcc" ∷ "0xaa" ∷ [];
  last_seen_block = [];
}

prune_stale_entries_lem_example :
    (Dict.get "old" (prune_stale_entries now aged).bank_payments
      ≡ keep
          (λ (p : BankPayment ℕ). leb (cutoff_at now) p.processed_at)
          (Dict.get "old" aged.bank_payments))
    × ((contains (prune_stale_entries now aged).processed_tx_hashes "0xcc" ≡ true) ↔ (
        (contains aged.processed_tx_hashes "0xcc" ≡ true)
        × ¬ (
            (e : String × BankPayment ℕ) × In e aged.bank_payments
            × IsStale (cutoff_at now) "0xcc" e)))
    × ((prune_stale_entries now aged).last_seen_block ≡ aged.last_seen_block)
unfolding Dict.get
prune_stale_entries_lem_example = prune_stale_entries_lem now aged "old" "0xcc" (refl, tt)

-- A serializer that prints every state as `{}`, for the tests of the disk.
abbrev braces : Serde ℕ
braces = record { from_str = λ s. ok empty_state; to_string_pretty = λ s. ok "{}" }

abbrev pub state_file : String
state_file = "state.json"

-- A save that is written in two parts.
abbrev pub smooth : SaveAnswers
smooth = record { create_dir_all = ok tt; torn = "" ∷ "{" ∷ []; write = ok tt; rename = ok tt }

abbrev before : Disk
before = ("state.json", "old") ∷ []

pub state_file-EndsInName : EndsInName state_file
unfolding trim_end is_blank after_last is_file_name lacks string_eq nat_eq
state_file-EndsInName = (refl, refl)

save_state-IsAtomic_example :
    IsAtomic braces smooth state_file aged before (save_state braces smooth state_file aged before)
save_state-IsAtomic_example =
    save_state-IsAtomic braces smooth state_file aged before state_file-EndsInName

-- A serializer of the states that hold at most one hash, and nothing else.
abbrev pub print_fields :
    Dict String (BankPayment ℕ) → StringSet → Dict Chain LastSeenBlock → Result String String
print_fields [] [] [] = ok ""
print_fields [] (h ∷ []) [] = ok (String.◌∷◌ "h" h)
print_fields _ _ _ = err "unsupported"

abbrev pub print : PersistedState ℕ → Result String String
print s = print_fields s.bank_payments s.processed_tx_hashes s.last_seen_block

abbrev pub parse : String → Result (PersistedState ℕ) String
parse String.[] = ok empty_state
parse (String.◌∷◌ _ h) = ok (record empty_state { processed_tx_hashes = h ∷ [] })

abbrev pub small : Serde ℕ
small = record { from_str = parse; to_string_pretty = print }

parse-print_fields :
    (ps : Dict String (BankPayment ℕ)) (hs : StringSet) (fs : Dict Chain LastSeenBlock)
    (text : String)
    → print_fields ps hs fs ≡ ok text
    → parse text
      ≡ ok (record { bank_payments = ps; processed_tx_hashes = hs; last_seen_block = fs })
parse-print_fields [] [] [] text e =
    let same : "" ≡ text = ground (arith, e) in
    subst
      (λ t.
        parse t
        ≡ ok (record { bank_payments = []; processed_tx_hashes = []; last_seen_block = [] }))
      same refl
parse-print_fields [] (h ∷ []) [] text e =
    let same : String.◌∷◌ "h" h ≡ text = ground (arith, e) in
    subst
      (λ t.
        parse t
        ≡ ok (record { bank_payments = []; processed_tx_hashes = h ∷ []; last_seen_block = [] }))
      same refl
parse-print_fields [] (h ∷ k ∷ t) [] text e = cc e
parse-print_fields [] [] (f ∷ fs) text e = cc e
parse-print_fields [] (h ∷ []) (f ∷ fs) text e = cc e
parse-print_fields [] (h ∷ k ∷ t) (f ∷ fs) text e = cc e
parse-print_fields (p ∷ ps) t fs text e = cc e

pub parse-print : (s : PersistedState ℕ) (text : String) → print s ≡ ok text → parse text ≡ ok s
parse-print s text e =
    parse-print_fields s.bank_payments s.processed_tx_hashes s.last_seen_block text e

abbrev one_hash : PersistedState ℕ
one_hash = record empty_state { processed_tx_hashes = "0xaa" ∷ [] }

saved : (save_state small smooth state_file one_hash before).result ≡ ok tt
unfolding save_state with_extension has_parent trim_end is_blank after_last up_to_last is_file_name
    file_stem before_last lacks string_eq nat_eq
saved = refl

load_state-save_state_example :
    load_state small
      (read_to_string none state_file (save_state small smooth state_file one_hash before).disk)
    ≡ ok one_hash
load_state-save_state_example =
    load_state-save_state small smooth state_file one_hash before parse-print state_file-EndsInName
      saved
