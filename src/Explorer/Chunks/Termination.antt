-- ===== src/Explorer/Chunks/Termination.antt =====
-- explorer.rs: a range that ends at the last `u64` is scanned for ever.
use cryptosweep.Base.{◌≡◌, refl, ℕ, zero, suc, ◌≤◌, Option, none, some, List, ◌++◌, Bool-cases}
use cryptosweep.Base.{leb, u64_max, saturating_add, inl, inr, arith}
use cryptosweep.Types.Error.{ok}
use cryptosweep.Types.State.{UsdcReceive}
use cryptosweep.Explorer.Chunks.{Chunk, chunk_end, scan}

module _ {D : Type 0} (fetch : ℕ → ℕ → Chunk D) (size : ℕ) where
  abbrev pub AlwaysAnswers : Type 0
  AlwaysAnswers = (a b : ℕ) → (c : List (UsdcReceive D)) × (fetch a b ≡ ok c)

  -- Where the range ends at `u64::MAX` and every request is answered, no number of rounds ends the
  -- scan: the saturating increment leaves the position at the end of the range.
  pub scan_diverges :
      AlwaysAnswers
      → (fuel from : ℕ) (receives : List (UsdcReceive D)) (last : Option ℕ) → from ≤ u64_max
      → scan fetch size u64_max fuel from receives last ≡ none
  unfolding scan
  scan_diverges answers zero from receives last h = refl
  scan_diverges answers (suc fuel) from receives last h = elim (Bool-cases (leb from u64_max)) [
    | inr stop ↦ absurd (ground arith)
    | inl go ↦
        let (chunk, e) = answers from (chunk_end size from u64_max) in
        rw (go, e)
          (scan_diverges answers fuel (saturating_add (chunk_end size from u64_max) 1)
            (receives ++ chunk) (some (chunk_end size from u64_max)) (omega arith))
  ]
