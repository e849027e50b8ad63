-- ===== src/Orchestrator/Scan/Detected.antt =====
-- orchestrator.rs with explorer.rs: the check of a chain misses no transfer that its node serves.
use cryptosweep.Base.{
  ◌≡◌, refl, sym, subst, inl, inr, String, ℕ, zero, suc, ◌+◌, ◌-◌, ◌<◌, ◌≤◌, some, List, [], ◌∷◌,
  In, In-append_left, In-append_right, arith, u64_max, leb, Bool-cases,
}
use cryptosweep.Types.Address.{DepositAddressConfig}
use cryptosweep.Types.Chain.{eth_get_logs_chunk_size}
use cryptosweep.Types.Decimal.{DecimalLib}
use cryptosweep.Types.Error.{Result, ok}
use cryptosweep.Types.State.{UsdcReceive, FetchReceivesOk}
use cryptosweep.Explorer.Chunks.{Fetched}
use cryptosweep.Explorer.Chunks.Exact.{block_range, IsExact}
use cryptosweep.Explorer.Logs.{Log, receive_of_log}
use cryptosweep.Explorer.Logs.Parsed.{to_list, parsed}
use cryptosweep.Explorer.Live.{LiveBlockExplorer, fetch_usdc_receives}
use cryptosweep.Explorer.Live.Exact.{ServesBlocks, live_chunk, fetch_usdc_receives-IsExact}
use cryptosweep.Orchestrator.ChainResult.{latest_seen_block}
use cryptosweep.Orchestrator.Scan.{ChainDepositCheck, option_since_block, run}
use cryptosweep.Orchestrator.Scan.Frontier.{Settled}
use cryptosweep.Orchestrator.Scan.Run.{run_resumes}

In-block_range :
    {A : Type 0} (g : ℕ → List A) (x : A) (from n b : ℕ)
    → from ≤ b
    → b < from + n
    → In x (g b)
    → In x (block_range g from n)
unfolding block_range
In-block_range g x from zero b h k i = absurd (omega arith)
In-block_range g x from (suc n) b h k i = elim (Bool-cases (leb b from)) [
  | inl here ↦
      In-append_left x (g from) (block_range g (from + 1) n)
        (let same : b ≡ from = ground arith in subst (λ y. In x (g y)) same i)
  | inr after ↦
      let later : from + 1 ≤ b = ground arith in
      In-append_right x (g from) (block_range g (from + 1) n)
        (In-block_range g x (from + 1) n b later (omega arith) i)
]

module _ (L : DecimalLib) (now : ℕ) where
  open L use {Decimal}

  In-parsed :
      (l : Log) (r : UsdcReceive Decimal) (ls : List Log)
      → In l ls
      → receive_of_log L now l ≡ ok r
      → In r (parsed L now ls)
  unfolding parsed
  In-parsed l r [] i e = absurd i
  In-parsed l r (m ∷ ls) (inl same) e =
      In-append_left r (to_list (receive_of_log L now m)) (parsed L now ls)
        (rw (sym same, e) (inl refl))
  In-parsed l r (m ∷ ls) (inr later) e =
      In-append_right r (to_list (receive_of_log L now m)) (parsed L now ls)
        (In-parsed l r ls later e)

module _ {Address : Type 0} (L : DecimalLib) (parse : String → Result Address String)
    (e : LiveBlockExplorer Address) (now : ℕ) (c : ChainDepositCheck L.Decimal)
    (since_block current_block : ℕ) where
  open L use {Decimal}

  -- What the live explorer returns for the scan of an address.
  abbrev Returns : Address → (ℕ → List Log) → Fetched Decimal → Type 0
  Returns deposit_address logs =
      IsExact (live_chunk L parse e deposit_address now) (eth_get_logs_chunk_size e.chain)
        (λ b. parsed L now (logs b)) since_block current_block

  -- A transfer in the blocks of the answer is among its receives.
  In-receives :
      (deposit_address : Address) (logs : ℕ → List Log) (fetch : FetchReceivesOk Decimal) (b : ℕ)
      (l : Log) (r : UsdcReceive Decimal)
      → Returns deposit_address logs (ok fetch)
      → since_block ≤ b
      → b ≤ fetch.confirmed_frontier
      → In l (logs b)
      → receive_of_log L now l ≡ ok r
      → In r fetch.receives
  In-receives deposit_address logs fetch b l r (whole, _, _, _) from to i reads =
      subst (In r) (sym whole) (
        In-block_range (λ k. parsed L now (logs k)) r since_block
          (fetch.confirmed_frontier + 1 - since_block) b from (omega arith)
          (In-parsed L now l r (logs b) i reads))

  -- A chain's check whose explorer answers as the live one does, over a node that serves the logs
  -- of its blocks, misses no transfer: each transfer to a monitored address in a block from the
  -- start of the scan up to the frontier that the check reports is dust, was processed before, was
  -- refused by the channel or is tracked as sent. The head of the chain is below the last u64, the
  -- address parses, and the log states its block.
  pub run_detects :
      (fuel f b : ℕ) (a : DepositAddressConfig) (deposit_address : Address) (logs : ℕ → List Log)
      (l : Log) (r : UsdcReceive Decimal)
      → parse a.address ≡ ok deposit_address
      → ServesBlocks L parse e deposit_address logs
      → current_block < u64_max
      → current_block + 1 - since_block < fuel
      → fetch_usdc_receives L parse e fuel now a.address since_block current_block
        ≡ some ((c.explorer).fetch_usdc_receives a.address since_block current_block)
      → (c.explorer).get_block_height ≡ ok current_block
      → option_since_block L c ≡ some since_block
      → latest_seen_block (run L c).0 ≡ some f
      → In a (c.config).deposit_addresses
      → since_block ≤ b
      → b < f
      → In l (logs b)
      → receive_of_log L now l ≡ ok r
      → r.block_number ≡ b
      → Settled L c a current_block (run L c).0.processed_tx_hashes r
  run_detects fuel f b a deposit_address logs l r p serves small m live height since seen i from to
        stands reads states =
      let (fetch, answer, below, settled) =
        run_resumes L c since_block current_block f a height since (omega (arith, small)) seen i in
      let (answer', returns, exact) =
        fetch_usdc_receives-IsExact L parse e fuel now a.address deposit_address since_block
          current_block logs p serves small m in
      let same : answer' ≡ ok fetch = cc (live, returns, answer) in
      let found =
        In-receives deposit_address logs fetch b l r
          (subst (Returns deposit_address logs) same exact) from (omega (arith, to, below)) stands
          reads in
      elim (settled r found) [
        | inl done ↦ done
        | inr behind ↦ absurd (omega (arith, behind, states, to))
      ]
