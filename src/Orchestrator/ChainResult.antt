-- ===== src/Orchestrator/ChainResult.antt =====
-- orchestrator.rs: what a scan of a chain found, as a monoid.
pub mod Laws
use mathlib.Core.List.{foldl}
use cryptosweep.Base.{
  String, ℕ, min, not, Option, none, some, List, [], ◌++◌, u64_max, ◌==◌, nat_eq,
}
use cryptosweep.Base.Dict.{keep}

pub record ChainResult : Type 0 where
  pub processed_tx_hashes : List String
  pub confirmed_frontier : Option ℕ
  pub errors : List String

-- `ChainResult::EMPTY`
abbrev pub empty : ChainResult
empty = record { processed_tx_hashes = []; confirmed_frontier = some u64_max; errors = [] }

-- `and_then` and `map` on the two frontiers.
abbrev pub min_frontier : Option ℕ → Option ℕ → Option ℕ
min_frontier none _ = none
min_frontier (some a) none = none
min_frontier (some a) (some b) = some (min a b)

unfoldable pub add : ChainResult → ChainResult → ChainResult
add r s = record {
  processed_tx_hashes = r.processed_tx_hashes ++ s.processed_tx_hashes;
  confirmed_frontier = min_frontier r.confirmed_frontier s.confirmed_frontier;
  errors = r.errors ++ s.errors;
}

unfoldable pub sum : List ChainResult → ChainResult
unfolding add
sum = foldl add empty

unfoldable pub latest_seen_block : ChainResult → Option ℕ
latest_seen_block r = keep (λ b. not (b == u64_max)) r.confirmed_frontier
