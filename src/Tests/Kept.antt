-- ===== src/Tests/Kept.antt =====
-- main.rs on concrete inputs: the state behind a run whose worker has liquidated a deposit.
use cryptosweep.Base.{◌≡◌, refl, sym, ◌∙◌, subst, ℕ, [], ◌∷◌, In, inl, inr, string_eq, nat_eq}
use cryptosweep.Base.Dict
use cryptosweep.Base.StringSet
use cryptosweep.Base.StringSet.{contains}
use cryptosweep.Types.Chain.{chain_eq}
use cryptosweep.Types.State.{EligibleDeposit, empty_state}
use cryptosweep.Config.{confirmation_blocks_for, start_block_for}
use cryptosweep.Orchestrator.ChainResult.{add, sum}
use cryptosweep.Orchestrator.Scan.{
  required_confirmations, send_if_eligible, send_all, address_scan, option_since_block,
  scan_addresses, is_chain_stale,
}
use cryptosweep.Orchestrator.Scan
use cryptosweep.Orchestrator.Pass.{discover, sent_deposits}
use cryptosweep.Orchestrator.Pass.WellFormed.{IsWellFormed}
use cryptosweep.Main.{World, pass_of, next_state}
use cryptosweep.Main.WellFormed.{next_state-IsWellFormed}
use cryptosweep.Tests.Fixtures.{micro, deposit, worker, format_date}
use cryptosweep.Tests.Invocation.{two_addresses, world}
use cryptosweep.Tests.Jobs.{finished, finished-IsFinished, processed}

abbrev worked : World ℕ
worked = record (world 1000) { liquidations = finished.results }

empty-IsWellFormed : IsWellFormed (empty_state {D = ℕ})
unfolding Dict.get
empty-IsWellFormed = record {
  unique = tt;
  own = λ id b has. absurd (cc has);
  known = λ id b has. absurd (cc has);
  single = λ id id' b b' has has' same. absurd (cc has);
}

pass_sends : In deposit (sent_deposits micro (pass_of micro two_addresses worked empty_state))
unfolding discover Scan.run scan_addresses address_scan send_all send_if_eligible
    required_confirmations confirmation_blocks_for option_since_block start_block_for sum add
    is_chain_stale Dict.get contains StringSet.insert string_eq chain_eq nat_eq
pass_sends = inl refl

arrives :
    (x : EligibleDeposit ℕ)
    → In x (deposit ∷ [])
    → In x (sent_deposits micro (pass_of micro two_addresses worked empty_state))
arrives x (inl same) =
    subst (λ d. In d (sent_deposits micro (pass_of micro two_addresses worked empty_state)))
      (sym same) pass_sends
arrives x (inr none_left) = absurd none_left

one_deposit :
    (d d' : EligibleDeposit ℕ)
    → In d (deposit ∷ [])
    → In d' (deposit ∷ [])
    → d.tx_hash ≡ d'.tx_hash
    → d ≡ d'
one_deposit d d' (inl a) (inl b) same = a ∙ sym b
one_deposit d d' (inl a) (inr none_left) same = absurd none_left
one_deposit d d' (inr none_left) j same = absurd none_left

next_state-IsWellFormed_example : IsWellFormed (next_state micro two_addresses worked empty_state)
next_state-IsWellFormed_example =
    next_state-IsWellFormed micro worker format_date (deposit ∷ []) two_addresses worked finished
      empty_state empty-IsWellFormed arrives one_deposit processed finished-IsFinished refl
