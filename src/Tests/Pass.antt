-- ===== src/Tests/Pass.antt =====
-- orchestrator.rs: two passes on concrete answers, and sums of chain results.
use mathlib.Core.List.{Permᴰ}
use cryptosweep.Base.{
  ap, sym, subst, ◌==◌, ◌∙◌, ◌≡◌, ◌≢◌, refl, inl, inr, ◌*◌, ◌^◌, ℕ, ◌≤◌, ◌||◌, none, some, [], ◌∷◌,
  arith, false, string_eq, nat_eq, In,
}
use cryptosweep.Base.Dict
use cryptosweep.Base.StringSet
use cryptosweep.Base.StringSet.{contains}
use cryptosweep.Types.Chain.{ethereum, chain_eq}
use cryptosweep.Types.Error.{ok}
use cryptosweep.Types.State.{
  EligibleDeposit, FetchReceivesOk, LastSeenBlock, LiquidationResult, empty_state,
}
use cryptosweep.Types.Traits.{BlockExplorer}
use cryptosweep.Config.{confirmation_blocks_for, start_block_for}
use cryptosweep.Orchestrator.ChainResult.{ChainResult, add, sum, latest_seen_block}
use cryptosweep.Orchestrator.Scan.{
  required_confirmations, send_if_eligible, send_all, address_scan, option_since_block,
  scan_addresses,
}
use cryptosweep.Orchestrator.Scan
use cryptosweep.Orchestrator.Pass.{
  DepositCheck, check_of, discover, chain_results, sent_deposits, run,
}
use cryptosweep.Orchestrator.Pass.Merge.{
  tracked, liquidated, reported, recorded, processed-run, records-run,
}
use cryptosweep.Orchestrator.Scan.Monotone.{IsSteady}
use cryptosweep.Orchestrator.Pass.Monotone.{IsSteadyFrom, frontier-le-run}
use cryptosweep.Orchestrator.Pass.Order.{SameState, AgreeOnIds, run-perm}
use cryptosweep.Tests.Fixtures.{
  micro, now, fetched, answering, clock, deposit, old_payment, pass_from,
}

abbrev liquidation : LiquidationResult ℕ
liquidation = record { payment = old_payment; tx_hash = "0xaa" }

abbrev pub first : DepositCheck ℕ
first = pass_from empty_state

-- The next pass, ten blocks later: the young receive is confirmed now.
abbrev later : BlockExplorer ℕ
later = record answering { get_block_height = ok 1010 }

abbrev second : DepositCheck ℕ
second = record (pass_from (run micro first (liquidation ∷ [])).1) {
  explorers = (ethereum, later) ∷ [];
}

abbrev next_deposit : EligibleDeposit ℕ
next_deposit = record deposit { tx_hash = "0xbb"; usdc_amount = 7 * 10 ^ 6 }

pub first_sends : In deposit (sent_deposits micro first)
unfolding discover Scan.run scan_addresses address_scan send_all send_if_eligible
    required_confirmations confirmation_blocks_for option_since_block start_block_for sum add
    Dict.get contains StringSet.insert string_eq chain_eq nat_eq
first_sends = inl refl

-- The worker receives what is sent.
pub arrives : (x : EligibleDeposit ℕ) → In x (sent_deposits micro first) → In x (deposit ∷ [])
unfolding discover Scan.run scan_addresses address_scan send_all send_if_eligible
    required_confirmations confirmation_blocks_for option_since_block start_block_for sum add
    Dict.get contains StringSet.insert string_eq chain_eq nat_eq
arrives x i = i

processed-run_example :
    contains (run micro first (liquidation ∷ [])).1.processed_tx_hashes "0xaa" ≡ (
      liquidated (liquidation ∷ []) "0xaa"
      || (tracked (chain_results micro first) "0xaa" || contains [] "0xaa"))
processed-run_example = processed-run micro first (liquidation ∷ []) "0xaa"

records-run_example :
    (Dict.get ethereum (run micro first (liquidation ∷ [])).1.last_seen_block
      ≡ reported clock ethereum (chain_results micro first) none)
    × (Dict.get "old" (run micro first (liquidation ∷ [])).1.bank_payments
        ≡ recorded "old" (liquidation ∷ []) none)
unfolding Dict.get
records-run_example = records-run micro first (liquidation ∷ []) ethereum "old"

second_sends : In next_deposit (sent_deposits micro second)
unfolding discover Scan.run scan_addresses address_scan send_all send_if_eligible
    required_confirmations confirmation_blocks_for option_since_block start_block_for sum add
    Dict.get contains StringSet.insert string_eq chain_eq nat_eq run StringSet.insert_all
    Dict.insert latest_seen_block
second_sends = inl refl

-- Two jobs, which may end in either order.
abbrev other_liquidation : LiquidationResult ℕ
other_liquidation = record { payment = record old_payment { id = "new" }; tx_hash = "0xbb" }

ids_differ : (liquidation.payment.id == other_liquidation.payment.id) ≡ false
unfolding string_eq
ids_differ = refl

other_id : liquidation.payment.id ≢ other_liquidation.payment.id
other_id same = ground (arith, ids_differ, same)

two-AgreeOnIds : AgreeOnIds (liquidation ∷ other_liquidation ∷ [])
two-AgreeOnIds a b (inl e) (inl f) same = ap (λ (l : LiquidationResult ℕ). l.payment) (e ∙ sym f)
two-AgreeOnIds a b (inl e) (inr (inl f)) same = absurd (
    other_id (
      sym (ap (λ (l : LiquidationResult ℕ). l.payment.id) e)
      ∙ same
      ∙ ap (λ (l : LiquidationResult ℕ). l.payment.id) f))
two-AgreeOnIds a b (inr (inl e)) (inl f) same = absurd (
    other_id (
      sym (ap (λ (l : LiquidationResult ℕ). l.payment.id) f)
      ∙ sym same
      ∙ ap (λ (l : LiquidationResult ℕ). l.payment.id) e))
two-AgreeOnIds a b (inl e) (inr (inr none_left)) same = absurd none_left
two-AgreeOnIds a b (inr (inl e)) (inr (inr none_left)) same = absurd none_left
two-AgreeOnIds a b (inr (inr none_left)) j same = absurd none_left
two-AgreeOnIds a b (inr (inl e)) (inr (inl f)) same =
    ap (λ (l : LiquidationResult ℕ). l.payment) (e ∙ sym f)

run-perm_example :
    ((run micro first (liquidation ∷ other_liquidation ∷ [])).0
      ≡ (run micro first (other_liquidation ∷ liquidation ∷ [])).0)
    × SameState
        (run micro first (liquidation ∷ other_liquidation ∷ [])).1
        (run micro first (other_liquidation ∷ liquidation ∷ [])).1
run-perm_example =
    run-perm micro first (liquidation ∷ other_liquidation ∷ [])
      (other_liquidation ∷ liquidation ∷ []) (Permᴰ.swap refl refl) two-AgreeOnIds

-- A pass that finds a frontier, with a node whose head is a hundred blocks ahead.
abbrev resumed : DepositCheck ℕ
resumed = pass_from (record empty_state {
  last_seen_block = (ethereum, record { block_number = 900; updated_at = now }) ∷ [];
})

answering-IsSteady : IsSteady micro (check_of resumed ethereum answering) 900 1000
unfolding Dict.get chain_eq nat_eq required_confirmations confirmation_blocks_for
answering-IsSteady = record {
  ahead = omega arith;
  word = omega arith;
  forward = λ a fetch i answers.
      let equal : fetched ≡ fetch = cc answers in
      subst (λ (x : FetchReceivesOk ℕ). 900 ≤ x.confirmed_frontier) equal (omega arith);
}

resumed-IsSteadyFrom : IsSteadyFrom micro resumed ethereum 900
unfolding Dict.get chain_eq nat_eq required_confirmations confirmation_blocks_for
resumed-IsSteadyFrom e h has height =
    let here : answering ≡ e = cc has in
    let head : answering.get_block_height ≡ ok h =
      ap (λ (x : BlockExplorer ℕ). x.get_block_height) here ∙ height in
    let at : 1000 ≡ h = cc head in
    subst (λ (x : BlockExplorer ℕ). IsSteady micro (check_of resumed ethereum x) 900 h) here
      (subst (IsSteady micro (check_of resumed ethereum answering) 900) at answering-IsSteady)

frontier-le-run_example :
    (l : LastSeenBlock) × (Dict.get ethereum (run micro resumed []).1.last_seen_block ≡ some l)
    × (900 ≤ l.block_number)
unfolding Dict.get chain_eq
frontier-le-run_example =
    frontier-le-run micro resumed [] ethereum (record { block_number = 900; updated_at = now }) refl
      resumed-IsSteadyFrom

abbrev part : ChainResult
part = record { processed_tx_hashes = "0xaa" ∷ []; confirmed_frontier = some 990; errors = [] }

sum_980 :
    (sum (record part { confirmed_frontier = some 980 } ∷ part ∷ [])).confirmed_frontier ≡ some 980
unfolding sum add
sum_980 = refl
