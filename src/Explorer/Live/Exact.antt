-- ===== src/Explorer/Live/Exact.antt =====
-- explorer.rs: what the live explorer returns, for a node that serves the logs of its blocks.
use cryptosweep.Base.{◌≡◌, ap, ◌∙◌, String, ℕ, ◌+◌, ◌-◌, ◌<◌, some, List, arith}
use cryptosweep.Base.{u64_max, inl, inr}
use cryptosweep.Types.Chain.{eth_get_logs_chunk_size}
use cryptosweep.Types.Decimal.{DecimalLib}
use cryptosweep.Types.Error.{Result, ok, Result-cases}
use cryptosweep.Explorer.Chunks.{Chunk, Fetched}
use cryptosweep.Explorer.Chunks.Exact.{block_range, Answers, IsExact, scan-IsExact}
use cryptosweep.Explorer.Logs.{Log, transfer_filter, fetch_receives_chunk}
use cryptosweep.Explorer.Logs.Parsed.{parsed, collect-parsed, parsed-block_range}
use cryptosweep.Explorer.Live.{LiveBlockExplorer, fetch_usdc_receives}

module _ {Address : Type 0} (L : DecimalLib) (parse : String → Result Address String)
    (e : LiveBlockExplorer Address) where
  open L use {Decimal}

  -- An answered log query returns the logs of its blocks: `logs b` for block `b`.
  abbrev pub ServesBlocks : Address → (ℕ → List Log) → Type 0
  ServesBlocks deposit_address logs =
      (from to : ℕ) (ls : List Log)
      → (e.provider).get_logs (transfer_filter e.usdc_contract deposit_address from to) ≡ ok ls
      → ls ≡ block_range logs from (to + 1 - from)

  abbrev pub live_chunk : Address → ℕ → ℕ → ℕ → Chunk Decimal
  live_chunk deposit_address now from to =
      fetch_receives_chunk L (e.provider).get_logs e.chain e.usdc_contract deposit_address from to
        now

  chunk-Answers :
      (deposit_address : Address) (logs : ℕ → List Log) (now : ℕ)
      → ServesBlocks deposit_address logs
      → Answers (live_chunk deposit_address now) (λ b. parsed L now (logs b))
  unfolding fetch_receives_chunk
  chunk-Answers deposit_address logs now serves a b c h =
      elim (Result-cases
        ((e.provider).get_logs (transfer_filter e.usdc_contract deposit_address a b))) [
          | inl (ls, answer) ↦
              collect-parsed L now ls c (ground (arith, answer))
              ∙ ap (parsed L now) (serves a b ls answer)
              ∙ parsed-block_range L now logs a (b + 1 - a)
          | inr (m, fails) ↦ absurd (ground (arith, fails))
        ]

  -- On a range below the last `u64` the scan of a well-formed address ends, with a round for each
  -- block. It returns exactly the receives of the blocks up to the frontier, which is the end of the
  -- range or stands before a chunk whose request failed. An error means that the first one failed.
  pub fetch_usdc_receives-IsExact :
      (fuel now : ℕ) (address : String) (deposit_address : Address) (since to : ℕ)
      (logs : ℕ → List Log)
      → parse address ≡ ok deposit_address
      → ServesBlocks deposit_address logs
      → to < u64_max
      → to + 1 - since < fuel
      → (r : Fetched Decimal) × (fetch_usdc_receives L parse e fuel now address since to ≡ some r)
        × IsExact
            (live_chunk deposit_address now)
            (eth_get_logs_chunk_size e.chain)
            (λ b. parsed L now (logs b))
            since
            to
            r
  unfolding fetch_usdc_receives
  fetch_usdc_receives-IsExact fuel now address deposit_address since to logs p serves small m =
      rw (p, fetch_usdc_receives)
        (scan-IsExact (live_chunk deposit_address now) (eth_get_logs_chunk_size e.chain)
          (λ b. parsed L now (logs b)) since to fuel (chunk-Answers deposit_address logs now serves)
          small m)
