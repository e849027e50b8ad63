-- ===== src/Base/StringSet.antt =====
-- `BTreeSet<String>` and `HashSet<String>` as lists. Proofs elsewhere go by the laws on `contains`.
use Prim.Native.Nat.{ℕ, suc, ◌+◌}
use Prim.Native.String.{String}
use mathlib.Core.Path.{◌≡◌, refl}
use mathlib.Core.Bool.{Bool, false, ◌||◌, ◌&&◌, not}
use mathlib.Core.List.{List, [], ◌∷◌, ◌++◌}
use native.Mathlib.Omega.{arith}
use cryptosweep.Base.Compare.{ltb, if◌then◌else◌}
use cryptosweep.Base.Equality.{◌==◌, string_eq}

abbrev pub StringSet : Type 0
StringSet = List String

unfoldable pub contains : StringSet → String → Bool
contains [] a = false
contains (x ∷ xs) a = a == x || contains xs a

unfoldable pub insert : String → StringSet → StringSet
unfolding contains
insert a xs = if contains xs a then xs else a ∷ xs

unfoldable pub remove : String → StringSet → StringSet
remove a [] = []
remove a (x ∷ xs) = let rest = remove a xs in if a == x then rest else x ∷ rest

unfoldable pub insert_all : List String → StringSet → StringSet
insert_all [] s = s
insert_all (a ∷ as') s = insert_all as' (insert a s)

unfoldable pub remove_all : List String → StringSet → StringSet
remove_all [] s = s
remove_all (a ∷ as') s = remove_all as' (remove a s)

pub contains-insert :
    (a b : String) (s : StringSet) → contains (insert b s) a ≡ (a == b || contains s a)
unfolding insert
contains-insert a b s = ground arith

pub contains-remove :
    (a b : String) (s : StringSet) → contains (remove b s) a ≡ (not (a == b) && contains s a)
unfolding contains remove
contains-remove a b [] = ground arith
contains-remove a b (x ∷ xs) = ground (arith, contains-remove a b xs)

pub contains-append :
    (a : String) (xs ys : List String) → contains (xs ++ ys) a ≡ (contains xs a || contains ys a)
unfolding contains
contains-append a [] ys = refl
contains-append a (x ∷ xs) ys = ground (arith, contains-append a xs ys)

pub contains-insert_all :
    (a : String) (xs : List String) (s : StringSet)
    → contains (insert_all xs s) a ≡ (contains xs a || contains s a)
unfolding insert_all contains
contains-insert_all a [] s = refl
contains-insert_all a (x ∷ xs) s =
    ground (arith, contains-insert_all a xs (insert x s), contains-insert a x s)

pub contains-remove_all :
    (a : String) (xs : List String) (s : StringSet)
    → contains (remove_all xs s) a ≡ (not (contains xs a) && contains s a)
unfolding remove_all contains
contains-remove_all a [] s = refl
contains-remove_all a (x ∷ xs) s =
    ground (arith, contains-remove_all a xs (remove x s), contains-remove a x s)

abbrev pub NodupStrings : List String → Type 0
NodupStrings [] = Unit
NodupStrings (x ∷ xs) = (contains xs x ≡ false) × NodupStrings xs

pub snoc-NodupStrings :
    (xs : List String) (x : String)
    → NodupStrings xs
    → contains xs x ≡ false
    → NodupStrings (xs ++ (x ∷ []))
unfolding contains
snoc-NodupStrings [] x u h = (refl, tt)
snoc-NodupStrings (y ∷ xs) x (fresh, u) h =
    (rw contains-append (ground arith), snoc-NodupStrings xs x u (ground arith))

-- How often a text stands in a list.
unfoldable pub count : String → List String → ℕ
count a [] = 0
count a (x ∷ xs) = if a == x then suc (count a xs) else count a xs

pub count-append : (a : String) (xs ys : List String) → count a (xs ++ ys) ≡ count a xs + count a ys
unfolding count
count-append a [] ys = omega arith
count-append a (x ∷ xs) ys = ground (arith, count-append a xs ys)

pub contains-count : (a : String) (xs : List String) → contains xs a ≡ ltb 0 (count a xs)
unfolding contains count
contains-count a [] = ground arith
contains-count a (x ∷ xs) = ground (arith, contains-count a xs)
