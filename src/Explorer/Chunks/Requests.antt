-- ===== src/Explorer/Chunks/Requests.antt =====
-- explorer.rs: which block ranges a scan asks the provider for.
use cryptosweep.Base.{◌≡◌, refl, ℕ, zero, suc, ◌-◌, ◌≤◌, ◌<◌}
use cryptosweep.Base.{Option, some, List, ◌++◌, Bool-cases, inl, inr, arith}
use cryptosweep.Base.{leb, u64_max, saturating_add}
use cryptosweep.Types.Error.{Result-cases}
use cryptosweep.Types.State.{UsdcReceive}
use cryptosweep.Explorer.Chunks.{Chunk, chunk_end, scan}

module _ {D : Type 0} (size since to : ℕ) where
  -- Two providers agree on the requests inside the range that span at most `size` blocks.
  abbrev pub AgreeInside : (ℕ → ℕ → Chunk D) → (ℕ → ℕ → Chunk D) → Type 0
  AgreeInside fetch other =
      (a b : ℕ) → since ≤ a → a ≤ b → b ≤ to → b - a < size → fetch a b ≡ other a b

  scan-AgreeInside_onto :
      (fetch other : ℕ → ℕ → Chunk D)
      → AgreeInside fetch other
      → 0 < size
      → to ≤ u64_max
      → (fuel from : ℕ) (receives : List (UsdcReceive D)) (last : Option ℕ) → since ≤ from
      → scan fetch size to fuel from receives last ≡ scan other size to fuel from receives last
  unfolding scan
  scan-AgreeInside_onto fetch other agree pos small zero from receives last h = refl
  scan-AgreeInside_onto fetch other agree pos small (suc fuel) from receives last h =
      elim (Bool-cases (leb from to)) [
        | inr stop ↦ rw stop
        | inl go ↦
            let same : fetch from (chunk_end size from to) ≡ other from (chunk_end size from to) =
              agree from (chunk_end size from to) h (ground arith) (omega arith) (ground arith) in
            elim (Result-cases (other from (chunk_end size from to))) [
              | inl (chunk, e) ↦
                  rw (go, same, e)
                    (scan-AgreeInside_onto fetch other agree pos small fuel
                      (saturating_add (chunk_end size from to) 1) (receives ++ chunk)
                      (some (chunk_end size from to)) (ground arith))
              | inr (e, fails) ↦ rw (go, same, fails)
            ]
      ]

  -- With a positive chunk size the scan of a range of `u64` blocks depends on the provider only
  -- through requests that lie inside the range and span at most `size` blocks: two providers that
  -- agree on these lead to the same result.
  pub scan-AgreeInside :
      (fetch other : ℕ → ℕ → Chunk D)
      → AgreeInside fetch other
      → 0 < size
      → to ≤ u64_max
      → (fuel : ℕ) (receives : List (UsdcReceive D)) (last : Option ℕ)
      → scan fetch size to fuel since receives last ≡ scan other size to fuel since receives last
  scan-AgreeInside fetch other agree pos small fuel receives last =
      scan-AgreeInside_onto fetch other agree pos small fuel since receives last (omega arith)
