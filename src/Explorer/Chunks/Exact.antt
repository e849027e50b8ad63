-- ===== src/Explorer/Chunks/Exact.antt =====
-- explorer.rs: what a chunked scan returns, for a provider whose answers are the logs of the blocks.
use mathlib.Core.Path.{ap₂}
use mathlib.Core.List.{append_assoc}
use cryptosweep.Base.{◌≡◌, refl, ◌∙◌, ◌⊎◌, sym, ap, subst, ℕ, zero, suc, ◌+◌, ◌-◌, ◌≤◌, ◌<◌}
use cryptosweep.Base.{false, Option, none, some, List, [], ◌++◌, Bool-cases, inl, inr, arith}
use cryptosweep.Base.{leb, u64_max, saturating_add}
use cryptosweep.Types.Error.{AppError, ok, err, Result-cases}
use cryptosweep.Types.State.{UsdcReceive}
use cryptosweep.Explorer.Chunks.{Chunk, Fetched, chunk_end, scan, stop_early, frontier_or}

-- The receives of `n` blocks from block `from` on.
unfoldable pub block_range : {A : Type 0} → (ℕ → List A) → ℕ → ℕ → List A
block_range logs from zero = []
block_range logs from (suc n) = logs from ++ block_range logs (from + 1) n

block_range-add :
    {A : Type 0} (logs : ℕ → List A) (from m n : ℕ)
    → block_range logs from (m + n) ≡ block_range logs from m ++ block_range logs (from + m) n
unfolding block_range
block_range-add logs from zero n =
    ap (λ k. block_range logs from k) (omega arith) ∙ ap (λ k. block_range logs k n) (omega arith)
block_range-add logs from (suc m) n =
    let shift : suc m + n ≡ suc (m + n) = omega arith in
    let start : from + suc m ≡ from + 1 + m = omega arith in
    rw (shift, start, block_range-add logs (from + 1) m n)
      (sym (
        append_assoc (logs from) (block_range logs (from + 1) m)
          (block_range logs (from + 1 + m) n)))

block_range-join :
    {A : Type 0} (logs : ℕ → List A) (since from end : ℕ)
    → since ≤ from
    → from ≤ end
    → block_range logs since (from - since) ++ block_range logs from (end - from)
      ≡ block_range logs since (end - since)
block_range-join logs since from end h k =
    let start : since + (from - since) ≡ from = omega arith in
    let total : from - since + (end - from) ≡ end - since = omega arith in
    subst
      (λ a.
        block_range logs since (from - since) ++ block_range logs a (end - from)
        ≡ block_range logs since (from - since + (end - from)))
      start (sym (block_range-add logs since (from - since) (end - from)))
    ∙ ap (block_range logs since) total

-- The answers to the requests are the logs of the blocks, when there is an answer.
abbrev pub Answers : {D : Type 0} → (ℕ → ℕ → Chunk D) → (ℕ → List (UsdcReceive D)) → Type 0
Answers {D} fetch logs =
    (a b : ℕ) (c : List (UsdcReceive D)) → fetch a b ≡ ok c → c ≡ block_range logs a (b + 1 - a)

module _ {D : Type 0} (fetch : ℕ → ℕ → Chunk D) (size : ℕ) (logs : ℕ → List (UsdcReceive D))
    (since to : ℕ) where
  -- The request for the chunk that begins at `from` fails.
  abbrev pub FailsAt : ℕ → AppError → Type 0
  FailsAt from e = fetch from (chunk_end size from to) ≡ err e

  -- What the caller may rely on.
  abbrev pub IsExact : Fetched D → Type 0
  IsExact (err e) = (since ≤ to) × FailsAt since e
  IsExact (ok r) =
      (r.receives ≡ block_range logs since (r.confirmed_frontier + 1 - since))
      × (r.confirmed_frontier ≤ to)
      × (since ≤ to → since ≤ r.confirmed_frontier)
      × ((r.confirmed_frontier ≡ to) ⊎ ((e : AppError) × FailsAt (r.confirmed_frontier + 1) e))

  abbrev AtChunkEnd : ℕ → Option ℕ → Type 0
  AtChunkEnd from none = from ≡ since
  AtChunkEnd from (some f) = (from ≡ f + 1) × (since ≤ f) × (f ≤ to)

  ranges : {m n : ℕ} → m ≡ n → block_range logs since m ≡ block_range logs since n
  ranges e = ap (block_range logs since) e

  -- The loop's invariant.
  record Progress (from : ℕ) (receives : List (UsdcReceive D)) (last : Option ℕ) : Type 0 where
    lower : since ≤ from
    seen : receives ≡ block_range logs since (from - since)
    at_end : AtChunkEnd from last

  abbrev finished : List (UsdcReceive D) → Option ℕ → Fetched D
  finished receives last =
      ok (record { receives = receives; confirmed_frontier = frontier_or last to })

  Exact-finished :
      (from : ℕ) (receives : List (UsdcReceive D)) (last : Option ℕ)
      → Progress from receives last
      → leb from to ≡ false
      → IsExact (finished receives last)
  Exact-finished from receives none p h =
      (p.seen ∙ ranges (ground arith), omega arith, λ h'. h', inl refl)
  Exact-finished from receives (some f) p h =
      (p.seen ∙ ranges (omega arith), omega arith, λ _. p.at_end.1, inl (ground arith))

  Exact-stopped :
      (from : ℕ) (receives : List (UsdcReceive D)) (last : Option ℕ) (e : AppError)
      → Progress from receives last
      → from ≤ to
      → FailsAt from e
      → IsExact (stop_early receives last e)
  Exact-stopped from receives none e p h fails =
      (omega arith, subst (λ a. FailsAt a e) p.at_end fails)
  Exact-stopped from receives (some f) e p h fails = (
    p.seen ∙ ranges (omega arith),
    omega arith,
    λ _. p.at_end.1,
    inr (e, subst (λ a. FailsAt a e) p.at_end.0 fails),
  )

  Progress-next :
      (from : ℕ) (receives chunk : List (UsdcReceive D)) (last : Option ℕ)
      → Answers fetch logs
      → to < u64_max
      → Progress from receives last
      → from ≤ to
      → fetch from (chunk_end size from to) ≡ ok chunk
      → Progress
          (saturating_add (chunk_end size from to) 1)
          (receives ++ chunk)
          (some (chunk_end size from to))
  Progress-next from receives chunk last answers small p h e = record {
    lower = omega arith;
    seen =
        ap₂ ◌++◌ p.seen (answers from (chunk_end size from to) chunk e)
        ∙ block_range-join logs since from (chunk_end size from to + 1) p.lower (omega arith)
        ∙ ranges (omega arith);
    at_end = (omega arith, omega arith, omega arith);
  }

  scan-IsExact_onto :
      (fuel from : ℕ) (receives : List (UsdcReceive D)) (last : Option ℕ)
      → Answers fetch logs
      → to < u64_max
      → Progress from receives last
      → to + 1 - from < fuel
      → (r : Fetched D) × (scan fetch size to fuel from receives last ≡ some r) × IsExact r
  unfolding scan
  scan-IsExact_onto zero from receives last answers small p m = absurd (omega arith)
  scan-IsExact_onto (suc fuel) from receives last answers small p m =
      elim (Bool-cases (leb from to)) [
        | inr stop ↦ (finished receives last, rw stop, Exact-finished from receives last p stop)
        | inl go ↦ elim (Result-cases (fetch from (chunk_end size from to))) [
          | inl (chunk, e) ↦
              let (r, ends, exact) =
                scan-IsExact_onto fuel (saturating_add (chunk_end size from to) 1)
                  (receives ++ chunk) (some (chunk_end size from to)) answers small
                  (Progress-next from receives chunk last answers small p (ground arith) e)
                  (ground arith) in
              (r, rw (go, e) ends, exact)
          | inr (e, fails) ↦ (
            stop_early receives last e,
            rw (go, fails),
            Exact-stopped from receives last e p (ground arith) fails,
          )
        ]
      ]

  -- Where answers are the logs of the blocks and the range ends below the last `u64`, the scan ends
  -- with a round for each block, and it returns exactly the receives of the blocks
  -- from the first one to the frontier. The frontier lies in the range and is its end, or the
  -- request behind it fails. An error means that the first request failed.
  pub scan-IsExact :
      (fuel : ℕ)
      → Answers fetch logs
      → to < u64_max
      → to + 1 - since < fuel
      → (r : Fetched D) × (scan fetch size to fuel since [] none ≡ some r) × IsExact r
  unfolding block_range
  scan-IsExact fuel answers small m =
      scan-IsExact_onto fuel since [] none answers small
        (record {
          lower = omega arith;
          seen = ap (block_range logs since) {x = 0} (omega arith);
          at_end = refl;
        })
        m
