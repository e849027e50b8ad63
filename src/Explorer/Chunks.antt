-- ===== src/Explorer/Chunks.antt =====
-- explorer.rs: the loop of `fetch_usdc_receives` over the chunks of a block range. `fetch from to`
-- is the answer to the request for one chunk.
pub mod Exact
pub mod Requests
pub mod Termination
pub mod Whole
use cryptosweep.Base.{ℕ, zero, suc, ◌+◌, ◌-◌, min, Option, none, some, List, [], ◌++◌}
use cryptosweep.Base.{leb, saturating_add, if◌then◌else◌}
use cryptosweep.Types.Error.{AppError, Result, ok, err}
use cryptosweep.Types.State.{UsdcReceive, FetchReceivesOk}

abbrev pub Chunk : Type 0 → Type 0
Chunk D = Result (List (UsdcReceive D)) AppError

abbrev pub Fetched : Type 0 → Type 0
Fetched D = Result (FetchReceivesOk D) AppError

-- `from.saturating_add(chunk_size - 1).min(to_block)`
abbrev pub chunk_end : ℕ → ℕ → ℕ → ℕ
chunk_end size from to = min (saturating_add from (size - 1)) to

-- `last_chunk_end.unwrap_or(to_block)`
abbrev pub frontier_or : Option ℕ → ℕ → ℕ
frontier_or none to = to
frontier_or (some f) to = f

module _ {D : Type 0} where
  -- The arm for a failed chunk: partial progress is returned, an error without progress propagates.
  abbrev pub stop_early : List (UsdcReceive D) → Option ℕ → AppError → Fetched D
  stop_early receives none e = err e
  stop_early receives (some f) e = ok (record { receives = receives; confirmed_frontier = f })

  -- `while from <= to_block { … }` and the value after it. The first number is fuel, a round for
  -- each chunk; `none` means that it ran out.
  unfoldable pub scan :
      (ℕ → ℕ → Chunk D) → ℕ → ℕ → ℕ → ℕ → List (UsdcReceive D) → Option ℕ → Option (Fetched D)
  scan fetch size to zero from receives last = none
  scan fetch size to (suc fuel) from receives last =
      let end : ℕ = chunk_end size from to in
      let next = λ (chunk : List (UsdcReceive D)).
        scan fetch size to fuel (saturating_add end 1) (receives ++ chunk) (some end) in
      let round : Option (Fetched D) = elim (fetch from end) [
        | ok chunk ↦ next chunk
        | err e ↦ some (stop_early receives last e)
      ] in
      if leb from to
      then round
      else some (ok (record { receives = receives; confirmed_frontier = frontier_or last to }))
