-- ===== src/Base/Dict.antt =====
-- `BTreeMap` and `HashMap` as association lists. Proofs elsewhere go by the laws on `get`.
use mathlib.Core.Path.{◌≡◌, refl}
use mathlib.Core.Logic.{◌≢◌}
use mathlib.Core.Bool.{Bool}
use mathlib.Core.Option.{Option, none, some}
use mathlib.Core.List.{List, [], ◌∷◌}
use native.Mathlib.Omega.{arith}
use cryptosweep.Base.Compare.{if◌then◌else◌}
use cryptosweep.Base.Equality.{Eq, ◌==◌}

abbrev pub Dict {ℓ κ} : Type ℓ → Type κ → Type (ℓ ⊔ κ)
Dict K V = List (K × V)

-- `Option::filter`
abbrev pub keep {ℓ} : {A : Type ℓ} → (A → Bool) → Option A → Option A
keep p none = none
keep p (some v) = if p v then some v else none

module _ {ℓ κ} {K : Type ℓ} {V : Type κ} ⦃e : Eq K⦄ where
  unfoldable pub get : K → Dict K V → Option V
  get k [] = none
  get k ((j, v) ∷ d) = if k == j then some v else get k d

  unfoldable pub insert : K → V → Dict K V → Dict K V
  insert k v [] = (k, v) ∷ []
  insert k v ((j, w) ∷ d) = if k == j then (k, v) ∷ d else (j, w) ∷ insert k v d

  -- `BTreeMap::retain`
  unfoldable pub retain : (V → Bool) → Dict K V → Dict K V
  retain p [] = []
  retain p ((j, w) ∷ d) = let rest = retain p d in if p w then (j, w) ∷ rest else rest

  unfoldable pub remove : K → Dict K V → Dict K V
  remove k [] = []
  remove k ((j, w) ∷ d) = let rest = remove k d in if k == j then rest else (j, w) ∷ rest

  -- No key stands twice.
  abbrev pub NodupKeys : Dict K V → Type κ
  NodupKeys [] = Unit
  NodupKeys ((k, _) ∷ d) = (get k d ≡ none) × NodupKeys d

  pub get-nil : (k : K) → get k [] ≡ none
  unfolding get
  get-nil k = refl

  pub get-insert :
      (j k : K) (v : V) (d : Dict K V) → get j (insert k v d) ≡ (if j == k then some v else get j d)
  unfolding get insert
  get-insert j k v [] = refl
  get-insert j k v (_ ∷ d) = ground (arith, get-insert j k v d)

  pub insert-NodupKeys : (k : K) (v : V) (d : Dict K V) → NodupKeys d → NodupKeys (insert k v d)
  unfolding insert get
  insert-NodupKeys k v [] _ = (refl, tt)
  insert-NodupKeys k v ((j, _) ∷ d) (fresh, u) =
      ground (arith, insert-NodupKeys k v d u, get-insert j k v d)

  pub get-retain_of_absent :
      (p : V → Bool) (k : K) (d : Dict K V) → get k d ≡ none → get k (retain p d) ≡ none
  unfolding get retain
  get-retain_of_absent p k [] h = refl
  get-retain_of_absent p k (_ ∷ d) h = ground (arith, get-retain_of_absent p k d)

  -- What `retain` leaves under a key, where no key stands twice.
  pub get-retain :
      (p : V → Bool) (k : K) (d : Dict K V) → NodupKeys d → get k (retain p d) ≡ keep p (get k d)
  unfolding get retain
  get-retain p k [] u = refl
  get-retain p k ((j, w) ∷ d) (fresh, u) =
      ground (arith, get-retain p k d u, get-retain_of_absent p k d)

  pub retain-NodupKeys : (p : V → Bool) (d : Dict K V) → NodupKeys d → NodupKeys (retain p d)
  unfolding retain
  retain-NodupKeys p [] u = tt
  retain-NodupKeys p ((j, w) ∷ d) (fresh, u) =
      ground (arith, retain-NodupKeys p d u, get-retain_of_absent p j d fresh)

  pub get-remove_other : (j k : K) (d : Dict K V) → j ≢ k → get j (remove k d) ≡ get j d
  unfolding get remove
  get-remove_other j k [] h = refl
  get-remove_other j k (_ ∷ d) h = ground (arith, get-remove_other j k d h)
