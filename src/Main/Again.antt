-- ===== src/Main/Again.antt =====
-- main.rs: what one run reads, sends and leaves as processed.
use cryptosweep.Base.{
  ◌≡◌, refl, subst, inl, inr, Option, some, String, true, false, none, In, string_eq, arith,
}
use cryptosweep.Base.StringSet.{contains}
use cryptosweep.Types.Decimal.{DecimalLib}
use cryptosweep.Types.Error.{AppError, Result, ok, err, Result-cases}
use cryptosweep.Types.State.{PersistedState, BankPayment, EligibleDeposit}
use cryptosweep.Config.{CryptoSweepConfig}
use cryptosweep.Coinbase.Client
use cryptosweep.Coinbase.Auth.{JwtLib}
use cryptosweep.Orchestrator.Pass.{chain_results, sent_deposits}
use cryptosweep.Orchestrator.Pass
use cryptosweep.Orchestrator.Pass.Merge.{processed-run}
use cryptosweep.Orchestrator.Pass.Twice.{sent-IsNew}
use cryptosweep.Persistence.File.{Disk, Serde, read_to_string, load_state}
use cryptosweep.Persistence.Prune.{cutoff_at}
use cryptosweep.Persistence.Prune.Laws.{IsStale, processed-prune_stale_entries}
use cryptosweep.Main.{World, pass_of, next_state, run_from, run}
use cryptosweep.Main.Kill.{client_of, sent_from, run-sent_from}

-- A load that succeeds was not denied.
pub load_state-open :
    {D : Type 0} (serde : Serde D) (denied : Option String) (path : String) (disk : Disk)
    (state : PersistedState D)
    → load_state serde (read_to_string denied path disk) ≡ ok state
    → load_state serde (read_to_string none path disk) ≡ ok state
unfolding load_state
load_state-open serde (some m) path disk state h = absurd (cc h)
load_state-open serde none path disk state h = h

module _ (L : DecimalLib) (config : CryptoSweepConfig L.Decimal) (w : World L.Decimal) where
  open L use {Decimal}

  -- No record that the run leaves is so old that pruning takes the hash out.
  abbrev pub NotPruned : PersistedState Decimal → String → Type 0
  NotPruned state h = ¬ (
      (e : String × BankPayment Decimal) × In e
        (Pass.run L (pass_of L config w state) w.liquidations).1.bank_payments
      × IsStale (cutoff_at w.pruned_at) h e)

  -- What is processed when a run begins stays processed in the state that it saves.
  pub stays-processed :
      (state : PersistedState Decimal) (h : String)
      → NotPruned state h
      → contains state.processed_tx_hashes h ≡ true
      → contains (next_state L config w state).processed_tx_hashes h ≡ true
  stays-processed state h fresh old =
      let merged = processed-run L (pass_of L config w state) w.liquidations h in
      (processed-prune_stale_entries w.pruned_at
          (Pass.run L (pass_of L config w state) w.liquidations).1 h).1
        (ground (arith, merged, old), fresh)

  -- What a run sends is processed in the state that it saves.
  pub saved-processed :
      (state : PersistedState Decimal) (d : EligibleDeposit Decimal)
      → NotPruned state d.tx_hash
      → In d (sent_deposits L (pass_of L config w state))
      → contains (next_state L config w state).processed_tx_hashes d.tx_hash ≡ true
  saved-processed state d fresh sent =
      let (_, tracks) = sent-IsNew L (pass_of L config w state) d sent in
      let merged = processed-run L (pass_of L config w state) w.liquidations d.tx_hash in
      (processed-prune_stale_entries w.pruned_at
          (Pass.run L (pass_of L config w state) w.liquidations).1 d.tx_hash).1
        (ground (arith, merged, tracks), fresh)

module _ (L : DecimalLib) (J : JwtLib) (config : CryptoSweepConfig L.Decimal) where
  open L use {Decimal}

  sent_from-new :
      (w : World Decimal) (state : PersistedState Decimal)
      (x : Result (Client.LiveCoinbaseClient J.SigningKey) AppError) (d : EligibleDeposit Decimal)
      → In d (sent_from L J config w (ok state) x)
      → contains state.processed_tx_hashes d.tx_hash ≡ false
  sent_from-new w state (err e) d i = absurd i
  sent_from-new w state (ok c) d i = (sent-IsNew L (pass_of L config w state) d i).0

  sends_loaded :
      (w : World Decimal) (x : Result (PersistedState Decimal) AppError)
      (d : EligibleDeposit Decimal)
      → In d (sent_from L J config w x (client_of L J config))
      → (state : PersistedState Decimal) × (x ≡ ok state)
        × (contains state.processed_tx_hashes d.tx_hash ≡ false)
  sends_loaded w (err e) d i = absurd i
  sends_loaded w (ok state) d i = (state, refl, sent_from-new w state (client_of L J config) d i)

  -- A run sends only what is not processed in the state that it has read.
  pub sends_new :
      (w : World Decimal) (disk : Disk) (d : EligibleDeposit Decimal)
      → In d (run L config w J disk).sent
      → (state : PersistedState Decimal) × (load_state w.serde
            (read_to_string w.denied config.state_file disk)
          ≡ ok state)
        × (contains state.processed_tx_hashes d.tx_hash ≡ false)
  sends_new w disk d sent =
      sends_loaded w (load_state w.serde (read_to_string w.denied config.state_file disk)) d
        (subst (In d) (run-sent_from L J config w disk) sent)

  -- A run that reads the state and sends something has come to its end.
  pub run-run_from :
      (w : World Decimal) (disk : Disk) (state : PersistedState Decimal)
      (d : EligibleDeposit Decimal)
      → load_state w.serde (read_to_string w.denied config.state_file disk) ≡ ok state
      → In d (run L config w J disk).sent
      → run L config w J disk ≡ run_from L config w state disk
  unfolding run
  run-run_from w disk state d reads sent = elim (Result-cases (client_of L J config)) [
    | inr (e, bad) ↦ absurd (rw (reads, bad, run) at sent)
    | inl (client, made) ↦ rw (reads, made, run) refl
  ]

  -- A run that returns an error has left the disk alone.
  pub stopped-disk :
      (w : World Decimal) (disk : Disk) (e : AppError)
      → (run L config w J disk).result ≡ err e
      → (run L config w J disk).disk ≡ disk
  unfolding run
  stopped-disk w disk e fails =
      elim (Result-cases (load_state w.serde (read_to_string w.denied config.state_file disk))) [
        | inr (_, bad) ↦ rw (bad, run) refl
        | inl (state, reads) ↦ elim (Result-cases (client_of L J config)) [
          | inr (_, bad) ↦ rw (reads, bad, run) refl
          | inl (client, made) ↦ absurd (cc (rw (reads, made, run) at fails))
        ]
      ]
