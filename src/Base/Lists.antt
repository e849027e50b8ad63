-- ===== src/Base/Lists.antt =====
-- Lists measured by native numbers, and predicates on all elements.
use Prim.Native.Nat.{ℕ, suc, ◌+◌}
use mathlib.Core.Path.{◌≡◌, refl, sym, subst}
use mathlib.Core.Logic.{◌⊎◌, inl, inr}
use mathlib.Core.Bool.{Bool}
use mathlib.Core.List.{List, [], ◌∷◌, ◌++◌, map}
use native.Mathlib.Omega.{arith}
use cryptosweep.Base.Compare.{if◌then◌else◌}

module _ {ℓ} {A : Type ℓ} where
  abbrev pub length : List A → ℕ
  length [] = 0
  length (x ∷ xs) = suc (length xs)

  pub length-append : (xs ys : List A) → length (xs ++ ys) ≡ length xs + length ys
  length-append [] ys = omega arith
  length-append (x ∷ xs) ys = omega (arith, length-append xs ys)

  abbrev pub flatten : List (List A) → List A
  flatten [] = []
  flatten (xs ∷ xss) = xs ++ flatten xss

  -- `Iterator::filter`
  abbrev pub filter : (A → Bool) → List A → List A
  filter p [] = []
  filter p (x ∷ xs) = if p x then x ∷ filter p xs else filter p xs

-- An element stands in the list: by recursion, so that the tactics read it.
abbrev pub In : {A : Type 0} → A → List A → Type 0
In x [] = ⊥
In x (y ∷ ys) = (x ≡ y) ⊎ In x ys

module _ {ℓ κ} {A : Type ℓ} where
  abbrev pub All : (A → Type κ) → List A → Type κ
  All P [] = Unit
  All P (x ∷ xs) = P x × All P xs

  pub All-append : (P : A → Type κ) (xs ys : List A) → All P xs → All P ys → All P (xs ++ ys)
  All-append P [] ys hx hy = hy
  All-append P (x ∷ xs) ys hx hy = (hx.0, All-append P xs ys hx.1 hy)

  pub All-split :
      (P : A → Type κ) (xs : List A) (y : A) (ys : List A)
      → All P (xs ++ (y ∷ ys))
      → All P xs × (P y × All P ys)
  All-split P [] y ys h = (tt, (h.0, h.1))
  All-split P (x ∷ xs) y ys h = let (hx, hy) = All-split P xs y ys h.1 in ((h.0, hx), hy)

pub All-weaken :
    {A : Type 0} (P Q : A → Type 0) (xs : List A) → ((x : A) → P x → Q x) → All P xs → All Q xs
All-weaken P Q [] f h = tt
All-weaken P Q (x ∷ xs) f h = (f x h.0, All-weaken P Q xs f h.1)

pub All-In : {A : Type 0} (xs : List A) → All (λ x. In x xs) xs
All-In [] = tt
All-In (x ∷ xs) =
    (inl refl, All-weaken (λ y. In y xs) (λ y. In y (x ∷ xs)) xs (λ y i. inr i) (All-In xs))

pub In-append : {A : Type 0} (x : A) (xs ys : List A) → In x (xs ++ ys) → In x xs ⊎ In x ys
In-append x [] ys i = inr i
In-append x (y ∷ xs) ys (inl same) = inl (inl same)
In-append x (y ∷ xs) ys (inr later) = elim (In-append x xs ys later) [
  | inl i ↦ inl (inr i)
  | inr i ↦ inr i
]

pub In-flatten-map :
    {A B : Type 0} (f : A → List B) (x : B) (xs : List A)
    → In x (flatten (map f xs))
    → (a : A) × In a xs × In x (f a)
In-flatten-map f x [] i = absurd i
In-flatten-map f x (a ∷ xs) i = elim (In-append x (f a) (flatten (map f xs)) i) [
  | inl here ↦ (a, inl refl, here)
  | inr later ↦ let (b, ib, ix) = In-flatten-map f x xs later in (b, inr ib, ix)
]

pub In-map :
    {A B : Type 0} (f : A → B) (y : B) (xs : List A)
    → In y (map f xs)
    → (a : A) × In a xs × (y ≡ f a)
In-map f y [] i = absurd i
In-map f y (x ∷ xs) (inl same) = (x, inl refl, same)
In-map f y (x ∷ xs) (inr later) = let (a, i, e) = In-map f y xs later in (a, inr i, e)

-- A member has what all elements have.
pub All-at : {A : Type 0} (P : A → Type 0) (x : A) (xs : List A) → All P xs → In x xs → P x
All-at P x [] h i = absurd i
All-at P x (y ∷ xs) h (inl same) = subst P (sym same) h.0
All-at P x (y ∷ xs) h (inr later) = All-at P x xs h.1 later

pub In-append_left : {A : Type 0} (x : A) (xs ys : List A) → In x xs → In x (xs ++ ys)
In-append_left x [] ys i = absurd i
In-append_left x (y ∷ xs) ys (inl same) = inl same
In-append_left x (y ∷ xs) ys (inr later) = inr (In-append_left x xs ys later)

pub In-append_right : {A : Type 0} (x : A) (xs ys : List A) → In x ys → In x (xs ++ ys)
In-append_right x [] ys i = i
In-append_right x (y ∷ xs) ys i = inr (In-append_right x xs ys i)
