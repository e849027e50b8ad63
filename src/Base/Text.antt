-- ===== src/Base/Text.antt =====
-- Texts as the standard library takes them apart and puts them together, character by character.
use Prim.Native.Nat.{ℕ}
use Prim.Native.Char.{Char, code}
use Prim.Native.String.{String, ◌++◌}
use mathlib.Core.Path.{◌≡◌, refl}
use mathlib.Core.Bool.{Bool, true, not, ◌&&◌}
use native.Mathlib.Omega.{arith}
use text.Mathlib.TextLemmas.{nil-append, cons-append}
use cryptosweep.Base.Compare.{if◌then◌else◌}
use cryptosweep.Base.Equality.{◌==◌, nat_eq}

-- `split(c).next()`: what stands before the first `c`, or the whole text.
unfoldable pub before : ℕ → String → String
before c String.[] = String.[]
before c (String.◌∷◌ a s) = if code a == c then String.[] else String.◌∷◌ a (before c s)

-- What stands behind the first `c`, or nothing.
unfoldable pub behind : ℕ → String → String
behind c String.[] = String.[]
behind c (String.◌∷◌ a s) = if code a == c then s else behind c s

-- `replace(c, "")`
unfoldable pub remove_char : ℕ → String → String
remove_char c String.[] = String.[]
remove_char c (String.◌∷◌ a s) =
    let rest = remove_char c s in if code a == c then rest else String.◌∷◌ a rest

-- `!contains(c)`
unfoldable pub lacks : ℕ → String → Bool
lacks c String.[] = true
lacks c (String.◌∷◌ a s) = not (code a == c) && lacks c s

pub before-append :
    (a : Char) (s t : String) → lacks (code a) s ≡ true → before (code a) (s ++ String.◌∷◌ a t) ≡ s
unfolding before lacks
before-append a String.[] t h = rw nil-append (ground arith)
before-append a (String.◌∷◌ b s) t h =
    rw cons-append (ground (arith, before-append a s t (ground arith)))

pub behind-append :
    (a : Char) (s t : String) → lacks (code a) s ≡ true → behind (code a) (s ++ String.◌∷◌ a t) ≡ t
unfolding behind lacks
behind-append a String.[] t h = rw nil-append (ground arith)
behind-append a (String.◌∷◌ b s) t h =
    rw cons-append (ground (arith, behind-append a s t (ground arith)))

pub lacks-remove_char : (c : ℕ) (s : String) → lacks c (remove_char c s) ≡ true
unfolding lacks remove_char
lacks-remove_char c String.[] = refl
lacks-remove_char c (String.◌∷◌ a s) = ground (arith, lacks-remove_char c s)

-- A text that lacks the character is its own first part.
pub before_all : (c : ℕ) (s : String) → lacks c s ≡ true → before c s ≡ s
unfolding before lacks
before_all c String.[] h = refl
before_all c (String.◌∷◌ a s) h = ground (arith, before_all c s (ground arith))
