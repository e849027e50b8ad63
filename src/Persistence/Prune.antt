-- ===== src/Persistence/Prune.antt =====
-- persistence.rs: the removal of entries that are older than 90 days.
pub mod Laws
pub mod WellFormed
use cryptosweep.Base.{String, ℕ, ◌-◌, ◌*◌, ◌^◌, List, [], ◌∷◌, ltb, leb, if◌then◌else◌, string_eq}
use cryptosweep.Base.Dict
use cryptosweep.Base.Dict.{Dict}
use cryptosweep.Base.StringSet
use cryptosweep.Types.State.{BankPayment, PersistedState}

-- 90 days, in nanoseconds.
abbrev pub retention : ℕ
retention = 90 * 24 * 3600 * 10 ^ 9

-- `Utc::now() - Duration::days(90)`. Before the epoch there are no moments: the cutoff is then 0,
-- and nothing is older.
abbrev pub cutoff_at : ℕ → ℕ
cutoff_at now = now - retention

unfoldable pub stale_tx_hashes : {D : Type 0} → ℕ → Dict String (BankPayment D) → List String
stale_tx_hashes cutoff [] = []
stale_tx_hashes cutoff ((_, p) ∷ ps) =
    let rest = stale_tx_hashes cutoff ps in
    if ltb p.processed_at cutoff then p.deposit_tx_hash ∷ rest else rest

unfoldable pub prune_stale_entries : {D : Type 0} → ℕ → PersistedState D → PersistedState D
unfolding stale_tx_hashes
prune_stale_entries now state = record state {
  bank_payments = Dict.retain (λ p. leb (cutoff_at now) p.processed_at) state.bank_payments;
  processed_tx_hashes =
      StringSet.remove_all (stale_tx_hashes (cutoff_at now) state.bank_payments)
        state.processed_tx_hashes;
}
