-- ===== src/Explorer/Logs/Parsed.antt =====
-- explorer.rs: the receives of a list of logs, for lists that parse.
use mathlib.Core.List.{append_assoc}
use cryptosweep.Base.{
  ◌≡◌, refl, sym, ap, ◌∙◌, inl, inr, ℕ, zero, suc, ◌+◌, List, [], ◌∷◌, ◌++◌, map, arith,
}
use cryptosweep.Types.Decimal.{DecimalLib}
use cryptosweep.Types.Error.{AppError, Result, ok, err, Result-cases}
use cryptosweep.Types.State.{UsdcReceive}
use cryptosweep.Explorer.Chunks.Exact.{block_range}
use cryptosweep.Explorer.Logs.{Log, collect, receive_of_log}

abbrev pub to_list : {A : Type 0} → Result A AppError → List A
to_list (ok a) = a ∷ []
to_list (err e) = []

module _ (L : DecimalLib) (fetched_at : ℕ) where
  open L use {Decimal}

  -- The receives of the logs that parse.
  unfoldable pub parsed : List Log → List (UsdcReceive Decimal)
  parsed [] = []
  parsed (l ∷ ls) = to_list (receive_of_log L fetched_at l) ++ parsed ls

  pub collect-parsed :
      (logs : List Log) (c : List (UsdcReceive Decimal))
      → collect (map (receive_of_log L fetched_at) logs) ≡ ok c
      → c ≡ parsed logs
  unfolding collect parsed
  collect-parsed [] c h = ground arith
  collect-parsed (l ∷ ls) c h =
      elim (Result-cases (collect (map (receive_of_log L fetched_at) ls))) [
        | inl (rest, e) ↦ ground (arith, e, collect-parsed ls rest e)
        | inr (e, fails) ↦ ground (arith, fails)
      ]

  pub parsed-append : (l m : List Log) → parsed (l ++ m) ≡ parsed l ++ parsed m
  unfolding parsed
  parsed-append [] m = refl
  parsed-append (x ∷ l) m =
      rw (parsed-append l m)
        (sym (append_assoc (to_list (receive_of_log L fetched_at x)) (parsed l) (parsed m)))

  -- The receives of the logs of each block, over a range of blocks.
  pub parsed-block_range :
      (logs : ℕ → List Log) (from n : ℕ)
      → parsed (block_range logs from n) ≡ block_range (λ b. parsed (logs b)) from n
  unfolding block_range parsed
  parsed-block_range logs from zero = refl
  parsed-block_range logs from (suc n) =
      parsed-append (logs from) (block_range logs (from + 1) n)
      ∙ ap (λ r. parsed (logs from) ++ r) (parsed-block_range logs (from + 1) n)
