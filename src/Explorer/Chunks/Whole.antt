-- ===== src/Explorer/Chunks/Whole.antt =====
-- explorer.rs: what the loop over the chunks returns depends on neither the chunk size nor the node.
use cryptosweep.Base.{
  ◌≡◌, ap, ◌∙◌, sym, inl, inr, ℕ, ◌+◌, ◌-◌, ◌<◌, ◌≤◌, none, some, List, [], arith, u64_max, leb,
  Bool-cases,
}
use cryptosweep.Types.Error.{ok, err}
use cryptosweep.Types.State.{UsdcReceive, FetchReceivesOk}
use cryptosweep.Explorer.Chunks.{Chunk, Fetched, chunk_end, scan}
use cryptosweep.Explorer.Chunks.Exact.{block_range, Answers, IsExact, scan-IsExact}

-- The request for the chunk that begins at a block of the range is answered.
abbrev pub AllAnswered : {D : Type 0} → (ℕ → ℕ → Chunk D) → ℕ → ℕ → ℕ → Type 0
AllAnswered {D} fetch size since to =
    (a : ℕ)
    → since ≤ a
    → a ≤ to
    → (c : List (UsdcReceive D)) × (fetch a (chunk_end size a to) ≡ ok c)

module _ {D : Type 0} (logs : ℕ → List (UsdcReceive D)) (since to : ℕ) where
  -- The receives of all blocks of the range.
  abbrev pub whole : FetchReceivesOk D
  whole = record { receives = block_range logs since (to + 1 - since); confirmed_frontier = to }

  at_end :
      (r : FetchReceivesOk D)
      → r.receives ≡ block_range logs since (r.confirmed_frontier + 1 - since)
      → r.confirmed_frontier ≡ to
      → r ≡ whole
  at_end r all end i = record {
    receives = (all ∙ ap (λ f. block_range logs since (f + 1 - since)) end) i;
    confirmed_frontier = end i;
  }

module _ {D : Type 0} (logs : ℕ → List (UsdcReceive D)) (since to : ℕ) (order : since ≤ to) where
  -- What is exact, where no request fails, is everything.
  exact-whole :
      (fetch : ℕ → ℕ → Chunk D) (size : ℕ) (r : Fetched D)
      → AllAnswered fetch size since to
      → IsExact fetch size logs since to r
      → r ≡ ok (whole logs since to)
  exact-whole fetch size (err e) all (_, fails) =
      let (c, answered) = all since (omega arith) order in absurd (cc (fails, answered))
  exact-whole fetch size (ok r) all (seen, below, _, inl end) =
      ap ok (at_end logs since to r seen end)
  exact-whole fetch size (ok r) all (seen, below, above, inr (e, fails)) =
      elim (Bool-cases (leb to r.confirmed_frontier)) [
        | inl last ↦ ap ok (at_end logs since to r seen (ground arith))
        | inr before ↦
            let (c, answered) =
              all (r.confirmed_frontier + 1) (omega (arith, above order)) (ground arith) in
            absurd (cc (fails, answered))
      ]

  -- Where no request fails, a scan returns the receives of all blocks of the range.
  scan-whole :
      (fetch : ℕ → ℕ → Chunk D) (size fuel : ℕ)
      → Answers fetch logs
      → AllAnswered fetch size since to
      → to < u64_max
      → to + 1 - since < fuel
      → scan fetch size to fuel since [] none ≡ some (ok (whole logs since to))
  scan-whole fetch size fuel answers all small m =
      let (r, ends, exact) = scan-IsExact fetch size logs since to fuel answers small m in
      ends ∙ ap some (exact-whole fetch size r all exact)

  -- Two scans of a range that is not empty and ends below the last u64, over providers that serve
  -- the same logs and answer every request of their scan, return the same, whatever their chunk
  -- sizes are.
  pub scan-any_size :
      (fetch fetch' : ℕ → ℕ → Chunk D) (size size' fuel fuel' : ℕ)
      → Answers fetch logs
      → Answers fetch' logs
      → AllAnswered fetch size since to
      → AllAnswered fetch' size' since to
      → to < u64_max
      → to + 1 - since < fuel
      → to + 1 - since < fuel'
      → scan fetch size to fuel since [] none ≡ scan fetch' size' to fuel' since [] none
  scan-any_size fetch fetch' size size' fuel fuel' answers answers' all all' small m m' =
      scan-whole fetch size fuel answers all small m
      ∙ sym (scan-whole fetch' size' fuel' answers' all' small m')
