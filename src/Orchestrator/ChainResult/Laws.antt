-- ===== src/Orchestrator/ChainResult/Laws.antt =====
-- orchestrator.rs: the monoid of chain results, and what a sum says of its parts.
use mathlib.Core.List.{foldl, append-nil, append_assoc}
use cryptosweep.Base.{◌≡◌, refl, sym, ap, ◌∙◌, String, ℕ, ◌≤◌, ◌<◌, true, not}
use cryptosweep.Base.{
  Option, none, some, List, [], ◌∷◌, ◌++◌, u64_max, ◌==◌, nat_eq, arith, All, In, subst, inl, inr,
}
use cryptosweep.Base.Dict.{keep}
use cryptosweep.Base.StringSet.{contains, contains-append}
use cryptosweep.Orchestrator.ChainResult.{
  ChainResult, empty, min_frontier, add, sum, latest_seen_block,
}

-- A frontier is a `u64`.
abbrev pub IsWord : Option ℕ → Type 0
IsWord none = Unit
IsWord (some f) = f ≤ u64_max

min_frontier_assoc :
    (a b c : Option ℕ) → min_frontier (min_frontier a b) c ≡ min_frontier a (min_frontier b c)
min_frontier_assoc none b c = refl
min_frontier_assoc (some a) none c = refl
min_frontier_assoc (some a) (some b) none = refl
min_frontier_assoc (some a) (some b) (some c) = ap some (omega arith)

max-min_frontier : (a : Option ℕ) → IsWord a → min_frontier (some u64_max) a ≡ a
max-min_frontier none h = refl
max-min_frontier (some a) h = ap some (omega arith)

min_frontier-max : (a : Option ℕ) → IsWord a → min_frontier a (some u64_max) ≡ a
min_frontier-max none h = refl
min_frontier-max (some a) h = ap some (omega arith)

pub add_assoc : (r s t : ChainResult) → add (add r s) t ≡ add r (add s t)
unfolding add
add_assoc r s t i = record {
  processed_tx_hashes =
      append_assoc r.processed_tx_hashes s.processed_tx_hashes t.processed_tx_hashes i;
  confirmed_frontier =
      min_frontier_assoc r.confirmed_frontier s.confirmed_frontier t.confirmed_frontier i;
  errors = append_assoc r.errors s.errors t.errors i;
}

pub empty-add : (r : ChainResult) → IsWord r.confirmed_frontier → add empty r ≡ r
unfolding add
empty-add r h i = record {
  processed_tx_hashes = r.processed_tx_hashes;
  confirmed_frontier = max-min_frontier r.confirmed_frontier h i;
  errors = r.errors;
}

pub add-empty : (r : ChainResult) → IsWord r.confirmed_frontier → add r empty ≡ r
unfolding add
add-empty r h i = record {
  processed_tx_hashes = append-nil r.processed_tx_hashes i;
  confirmed_frontier = min_frontier-max r.confirmed_frontier h i;
  errors = append-nil r.errors i;
}

-- Results form a monoid: `add` is associative, and `empty` is its identity on both sides for
-- every result whose frontier is a `u64`.
pub add-IsMonoid :
    (r s t : ChainResult)
    → IsWord r.confirmed_frontier
    → (add (add r s) t ≡ add r (add s t)) × (add empty r ≡ r) × (add r empty ≡ r)
add-IsMonoid r s t h = (add_assoc r s t, empty-add r h, add-empty r h)

-- A sum is the first result plus the sum of the rest.
foldl-add :
    (a b : ChainResult) (rs : List ChainResult) → foldl add (add a b) rs ≡ add a (foldl add b rs)
foldl-add a b [] = refl
foldl-add a b (r ∷ rs) = rw add_assoc (foldl-add a (add b r) rs)

pub sum-cons :
    (r : ChainResult) (rs : List ChainResult)
    → IsWord r.confirmed_frontier
    → sum (r ∷ rs) ≡ add r (sum rs)
unfolding sum
sum-cons r rs h =
    ap (λ x. foldl add x rs) (empty-add r h ∙ sym (add-empty r h)) ∙ foldl-add r empty rs

abbrev pub AllWords : List ChainResult → Type 0
AllWords = All (λ r. IsWord r.confirmed_frontier)

min_frontier-IsWord : (a b : Option ℕ) → IsWord a → IsWord b → IsWord (min_frontier a b)
min_frontier-IsWord none b ha hb = tt
min_frontier-IsWord (some a) none ha hb = tt
min_frontier-IsWord (some a) (some b) ha hb = omega arith

pub sum-IsWord : (rs : List ChainResult) → AllWords rs → IsWord (sum rs).confirmed_frontier
unfolding sum
sum-IsWord [] h = omega arith
sum-IsWord (r ∷ rs) (h, hs) =
    rw (sum-cons r rs h)
      (min_frontier-IsWord r.confirmed_frontier (sum rs).confirmed_frontier h (sum-IsWord rs hs))

min_frontier_bounds :
    (a b : Option ℕ) (f : ℕ)
    → min_frontier a b ≡ some f
    → ((g : ℕ) × (a ≡ some g) × (f ≤ g)) × ((g : ℕ) × (b ≡ some g) × (f ≤ g))
min_frontier_bounds none b f h = cc
min_frontier_bounds (some a) none f h = cc
min_frontier_bounds (some a) (some b) f h = ((a, refl, ground arith), (b, refl, ground arith))

-- Where the frontiers are `u64` and the sum has one, every part has one, and none lies below it.
pub sum-frontier-le :
    (rs : List ChainResult) (r : ChainResult) (f : ℕ)
    → AllWords rs
    → (sum rs).confirmed_frontier ≡ some f
    → In r rs
    → (g : ℕ) × (r.confirmed_frontier ≡ some g) × (f ≤ g)
unfolding add
sum-frontier-le [] r f hs e i = absurd i
sum-frontier-le (x ∷ rs) r f (h, hs) e (inl same) = rw same (
    (min_frontier_bounds x.confirmed_frontier (sum rs).confirmed_frontier f
      (rw (sum-cons x rs h) at e)).0)
sum-frontier-le (x ∷ rs) r f (h, hs) e (inr later) =
    let (g, eq, le) =
      (min_frontier_bounds x.confirmed_frontier (sum rs).confirmed_frontier f
        (rw (sum-cons x rs h) at e)).1 in
    let (k, eq', le') = sum-frontier-le rs r g hs eq later in (k, eq', omega arith)

min_frontier-ge :
    (a b : Option ℕ) (n f : ℕ)
    → ((g : ℕ) → a ≡ some g → n ≤ g)
    → ((g : ℕ) → b ≡ some g → n ≤ g)
    → min_frontier a b ≡ some f
    → n ≤ f
min_frontier-ge none b n f ha hb e = absurd (cc)
min_frontier-ge (some a) none n f ha hb e = absurd (cc)
min_frontier-ge (some a) (some b) n f ha hb e = ground (arith, ha a refl, hb b refl)

foldl-frontier-ge :
    (acc : ChainResult) (rs : List ChainResult) (b f : ℕ)
    → ((g : ℕ) → acc.confirmed_frontier ≡ some g → b ≤ g)
    → ((r : ChainResult) (g : ℕ) → In r rs → r.confirmed_frontier ≡ some g → b ≤ g)
    → (foldl add acc rs).confirmed_frontier ≡ some f
    → b ≤ f
unfolding add
foldl-frontier-ge acc [] b f ha hr e = ha f e
foldl-frontier-ge acc (r ∷ rs) b f ha hr e =
    foldl-frontier-ge (add acc r) rs b f
      (λ g eq.
        min_frontier-ge acc.confirmed_frontier r.confirmed_frontier b g ha (λ k. hr r k (inl refl))
          eq)
      (λ x g i. hr x g (inr i)) e

-- A bound on the frontiers of all parts bounds the sum's.
pub sum-frontier-ge :
    (rs : List ChainResult) (b f : ℕ)
    → b ≤ u64_max
    → ((r : ChainResult) (g : ℕ) → In r rs → r.confirmed_frontier ≡ some g → b ≤ g)
    → (sum rs).confirmed_frontier ≡ some f
    → b ≤ f
unfolding sum
sum-frontier-ge rs b f word hr e =
    foldl-frontier-ge empty rs b f (λ g eq. ground (arith, word)) hr e

all_hashes : List ChainResult → List String
all_hashes [] = []
all_hashes (r ∷ rs) = r.processed_tx_hashes ++ all_hashes rs

foldl-hashes :
    (acc : ChainResult) (rs : List ChainResult)
    → (foldl add acc rs).processed_tx_hashes ≡ acc.processed_tx_hashes ++ all_hashes rs
unfolding all_hashes add
foldl-hashes acc [] = sym (append-nil acc.processed_tx_hashes)
foldl-hashes acc (r ∷ rs) =
    foldl-hashes (add acc r) rs
    ∙ append_assoc acc.processed_tx_hashes r.processed_tx_hashes (all_hashes rs)

contains-all_hashes :
    (a : String) (rs : List ChainResult) (r : ChainResult)
    → In r rs
    → contains r.processed_tx_hashes a ≡ true
    → contains (all_hashes rs) a ≡ true
unfolding all_hashes
contains-all_hashes a [] r i h = absurd i
contains-all_hashes a (x ∷ rs) r (inl same) h =
    rw contains-append (ground (arith, subst (λ y. contains y.processed_tx_hashes a ≡ true) same h))
contains-all_hashes a (x ∷ rs) r (inr later) h =
    rw contains-append (ground (arith, contains-all_hashes a rs r later h))

-- A hash that some part tracks is tracked by the sum.
pub contains-sum :
    (a : String) (rs : List ChainResult) (r : ChainResult)
    → In r rs
    → contains r.processed_tx_hashes a ≡ true
    → contains (sum rs).processed_tx_hashes a ≡ true
unfolding sum
contains-sum a rs r i h = rw foldl-hashes (contains-all_hashes a rs r i h)

keep_frontier :
    (o : Option ℕ) (f : ℕ)
    → IsWord o
    → keep (λ b. not (b == u64_max)) o ≡ some f
    → (o ≡ some f) × (f < u64_max)
keep_frontier none f w h = cc
keep_frontier (some b) f w h = ground arith

-- The identity's frontier is never reported.
pub latest_seen_block-lt :
    (r : ChainResult) (f : ℕ)
    → IsWord r.confirmed_frontier
    → latest_seen_block r ≡ some f
    → (r.confirmed_frontier ≡ some f) × (f < u64_max)
unfolding latest_seen_block
latest_seen_block-lt r f w h = keep_frontier r.confirmed_frontier f w h
