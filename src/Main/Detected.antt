-- ===== src/Main/Detected.antt =====
-- main.rs with explorer.rs: a run that saves has missed no transfer behind the frontier on the disk.
use cryptosweep.Base.{
  ◌≡◌, refl, sym, ap, ◌∙◌, ◌⊎◌, inl, inr, String, ℕ, ◌+◌, ◌-◌, ◌<◌, ◌≤◌, true, false, none, some,
  List, In, u64_max, string_eq,
}
use cryptosweep.Base.Dict
use cryptosweep.Base.FilePath.{EndsInName}
use cryptosweep.Base.StringSet.{contains}
use cryptosweep.Types.Address.{DepositAddressConfig}
use cryptosweep.Types.Chain.{Chain, ethereum, base, arbitrum, polygon, optimism, monad, chain_eq}
use cryptosweep.Types.Decimal.{DecimalLib}
use cryptosweep.Types.Error.{Result, ok}
use cryptosweep.Types.State.{PersistedState, LastSeenBlock, UsdcReceive}
use cryptosweep.Config.{CryptoSweepConfig}
use cryptosweep.Explorer.Live.{LiveBlockExplorer, fetch_usdc_receives}
use cryptosweep.Explorer.Live.Exact.{ServesBlocks}
use cryptosweep.Explorer.Logs.{Log, receive_of_log}
use cryptosweep.Orchestrator.Scan.{option_since_block, usdc_dust_threshold, deposit_of}
use cryptosweep.Orchestrator.Pass.{check_of}
use cryptosweep.Orchestrator.Pass
use cryptosweep.Orchestrator.Pass.Detected.{IsHandled, pass_detects}
use cryptosweep.Persistence.File.{Disk, read_to_string, load_state}
use cryptosweep.Persistence.File.Laws.{load_state-save_state}
use cryptosweep.Persistence.Prune.{prune_stale_entries}
use cryptosweep.Persistence.Prune.Laws.{processed-prune_stale_entries}
use cryptosweep.Main.{World, explorers, pass_of, next_state, save}
use cryptosweep.Main.Again.{NotPruned}

get-explorers :
    (L : DecimalLib) (config : CryptoSweepConfig L.Decimal) (w : World L.Decimal) (chain : Chain)
    → Dict.get chain (explorers L config w) ≡ some (w.explorers chain)
unfolding Dict.get chain_eq
get-explorers L config w ethereum = refl
get-explorers L config w base = refl
get-explorers L config w arbitrum = refl
get-explorers L config w polygon = refl
get-explorers L config w optimism = refl
get-explorers L config w monad = refl

module _ {Address : Type 0} (L : DecimalLib) (parse : String → Result Address String)
    (e : LiveBlockExplorer Address) (now : ℕ) (config : CryptoSweepConfig L.Decimal)
    (w : World L.Decimal) (state : PersistedState L.Decimal) (chain : Chain) where
  open L use {Decimal, lt}

  -- What a run has made of a receive: it is dust, or refused by the channel, or its hash is processed
  -- in the state.
  abbrev pub IsHandledIn :
      PersistedState Decimal → DepositAddressConfig → UsdcReceive Decimal → Type 0
  IsHandledIn s a r =
      (lt r.amount
          (usdc_dust_threshold L (check_of (pass_of L config w state) chain (w.explorers chain)))
        ≡ true)
      ⊎ (w.send (deposit_of L (check_of (pass_of L config w state) chain (w.explorers chain)) a r)
          ≡ false)
      ⊎ (contains s.processed_tx_hashes r.tx_hash ≡ true)

  pruned-IsHandledIn :
      (a : DepositAddressConfig) (r : UsdcReceive Decimal)
      → NotPruned L config w state r.tx_hash
      → IsHandled L parse e now
          (pass_of L config w state)
          w.liquidations
          chain
          (w.explorers chain)
          a
          r
      → IsHandledIn (next_state L config w state) a r
  pruned-IsHandledIn a r fresh (inl small) = inl small
  pruned-IsHandledIn a r fresh (inr (inl refused)) = inr (inl refused)
  pruned-IsHandledIn a r fresh (inr (inr known)) = inr (
      inr (
        (processed-prune_stale_entries w.pruned_at
            (Pass.run L (pass_of L config w state) w.liquidations).1 r.tx_hash).1
          (known, fresh)))

  seen-next_state :
      (next_state L config w state).last_seen_block
      ≡ (Pass.run L (pass_of L config w state) w.liquidations).1.last_seen_block
  unfolding prune_stale_entries
  seen-next_state = refl

  -- A run that has saved has missed no transfer before the frontier that it leaves on the disk: for
  -- a chain whose explorer answers as the live one does, over a node that serves the logs of its
  -- blocks, each transfer to a monitored address in a block from the start of the scan up to the
  -- frontier on the disk is dust, or was refused by the channel, or its hash is processed on the
  -- disk. The head of the chain is below the last u64, the address parses, the log states its
  -- block, the serializer reads what it has printed, the path of the state file ends in a file's
  -- name, and the run does not prune the hash.
  pub saved_detects :
      (fuel since_block current_block b : ℕ) (seen : LastSeenBlock) (a : DepositAddressConfig)
      (deposit_address : Address) (logs : ℕ → List Log) (l : Log) (r : UsdcReceive Decimal)
      (disk : Disk)
      → parse a.address ≡ ok deposit_address
      → ServesBlocks L parse e deposit_address logs
      → current_block < u64_max
      → current_block + 1 - since_block < fuel
      → fetch_usdc_receives L parse e fuel now a.address since_block current_block
        ≡ some ((w.explorers chain).fetch_usdc_receives a.address since_block current_block)
      → (w.explorers chain).get_block_height ≡ ok current_block
      → option_since_block L (check_of (pass_of L config w state) chain (w.explorers chain))
        ≡ some since_block
      → ((s : PersistedState Decimal) (text : String)
          → (w.serde).to_string_pretty s ≡ ok text
          → (w.serde).from_str text ≡ ok s)
      → EndsInName config.state_file
      → (save L config w state disk).result ≡ ok tt
      → NotPruned L config w state r.tx_hash
      → Dict.get chain (next_state L config w state).last_seen_block ≡ some seen
      → In a config.deposit_addresses
      → since_block ≤ b
      → b < seen.block_number
      → In l (logs b)
      → receive_of_log L now l ≡ ok r
      → r.block_number ≡ b
      → (s : PersistedState Decimal) × (load_state w.serde
            (read_to_string none config.state_file (save L config w state disk).disk)
          ≡ ok s)
        × (Dict.get chain s.last_seen_block ≡ some seen)
        × IsHandledIn s a r
  saved_detects fuel since_block current_block b seen a deposit_address logs l r disk parses serves
        small m live height since back name saves fresh left i from to stands reads states =
      let handled =
        pass_detects L parse e now (pass_of L config w state) w.liquidations chain
          (w.explorers chain) fuel since_block current_block b seen a deposit_address logs l r
          (get-explorers L config w chain) parses serves small m live height since
          (ap (Dict.get chain) (sym seen-next_state) ∙ left) i from to stands reads states in
      (
        next_state L config w state,
        load_state-save_state w.serde w.answers config.state_file (next_state L config w state) disk
            back name saves,
        left,
        pruned-IsHandledIn a r fresh handled,
      )
