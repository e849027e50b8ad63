-- ===== src/Base/FilePath/Laws.antt =====
-- `std::path` on Unix: a file that is named in a directory.
use Prim.Native.Nat.{ℕ}
use Prim.Native.Char.{code}
use Prim.Native.String.{String, ◌++◌}
use mathlib.Core.Path.{◌≡◌, refl, sym, ap, ◌∙◌, subst}
use mathlib.Core.Logic.{inl, inr}
use mathlib.Core.Bool.{Bool, true, false}
use native.Mathlib.Omega.{arith}
use text.Mathlib.TextLemmas.{nil-append, cons-append, append_assoc, append-nil}
use cryptosweep.Base.Compare.{if◌then◌else◌, Bool-cases}
use cryptosweep.Base.Equality.{◌==◌, nat_eq, string_eq, ==_iff}
use cryptosweep.Base.Text.{lacks}
use cryptosweep.Base.FilePath.{
  is_blank, trim_end, after_last, up_to_last, is_file_name, file_stem, with_extension,
  ends_in_separator, join, EndsInName, up_to_last-after_last,
}

-- The name of a file, alone.
pub record IsName (name : String) : Type 0 where
  pub named : is_file_name name ≡ true
  pub single : lacks b'/' name ≡ true
  pub solid : (behind : Bool) → is_blank behind name ≡ false
  pub whole : trim_end name ≡ name

is_blank-append :
    (t : String)
    → ((behind : Bool) → is_blank behind t ≡ false)
    → (s : String) (behind : Bool) → is_blank behind (s ++ t) ≡ false
unfolding is_blank
is_blank-append t solid String.[] behind = rw nil-append (solid behind)
is_blank-append t solid (String.◌∷◌ a s) behind =
    let rest = is_blank-append t solid s (code a == b'/') in rw cons-append (ground (arith, rest))

trim_end-append :
    (t : String)
    → ((behind : Bool) → is_blank behind t ≡ false)
    → trim_end t ≡ t
    → (s : String) → trim_end (s ++ t) ≡ s ++ t
unfolding trim_end
trim_end-append t solid whole String.[] = rw nil-append whole
trim_end-append t solid whole (String.◌∷◌ a s) =
    let kept = is_blank-append t solid (String.◌∷◌ a s) false in
    let kept' : is_blank false (String.◌∷◌ a (s ++ t)) ≡ false = rw cons-append at kept in
    rw (cons-append, kept', trim_end-append t solid whole s) refl

lacks-append : (c : ℕ) (t : String) → lacks c t ≡ true → (s : String) → lacks c (s ++ t) ≡ lacks c s
unfolding lacks
lacks-append c t h String.[] = rw nil-append h
lacks-append c t h (String.◌∷◌ a s) = rw (cons-append, lacks-append c t h s) refl

after_all : (c : ℕ) (t : String) → lacks c t ≡ true → after_last c t ≡ t
unfolding lacks after_last
after_all c String.[] h = refl
after_all c (String.◌∷◌ a s) h = ground (arith, h)

up_to_none : (c : ℕ) (t : String) → lacks c t ≡ true → up_to_last c t ≡ String.[]
unfolding lacks up_to_last
up_to_none c String.[] h = refl
up_to_none c (String.◌∷◌ a s) h = ground (arith, h)

after_last-append :
    (c : ℕ) (t : String)
    → lacks c t ≡ true
    → (s : String) → after_last c (s ++ t) ≡ after_last c s ++ t
unfolding after_last
after_last-append c t h String.[] = rw nil-append (after_all c t h)
after_last-append c t h (String.◌∷◌ a s) = elim (Bool-cases (lacks c s)) [
  | inr more ↦ rw (cons-append, lacks-append c t h s, more) (after_last-append c t h s)
  | inl last ↦ elim (Bool-cases (code a == c)) [
    | inl here ↦ rw (cons-append, lacks-append c t h s, last, here) refl
    | inr other ↦ rw (cons-append, lacks-append c t h s, last, other) (sym (cons-append a s t))
  ]
]

up_to_last-append :
    (c : ℕ) (t : String) → lacks c t ≡ true → (s : String) → up_to_last c (s ++ t) ≡ up_to_last c s
unfolding up_to_last
up_to_last-append c t h String.[] = rw nil-append (up_to_none c t h)
up_to_last-append c t h (String.◌∷◌ a s) =
    rw (cons-append, lacks-append c t h s, up_to_last-append c t h s) refl

abbrev directory : String → String
directory path = if ends_in_separator path then path else path ++ "/"

join-directory : (path name : String) → join path name ≡ directory path ++ name
unfolding join
join-directory path name = elim (Bool-cases (ends_in_separator path)) [
  | inl ends ↦ rw (ends, join) refl
  | inr other ↦ rw (other, join) (sym (append_assoc path "/" name))
]

has-separator : (s : String) → lacks b'/' (s ++ "/") ≡ false
unfolding lacks nat_eq
has-separator String.[] = refl
has-separator (String.◌∷◌ a s) = rw cons-append (ground (arith, has-separator s))

separator-ends : (s : String) → after_last b'/' (s ++ "/") ≡ String.[]
unfolding after_last lacks nat_eq
separator-ends String.[] = refl
separator-ends (String.◌∷◌ a s) = rw (cons-append, has-separator s) (separator-ends s)

after_last-directory : (path : String) → after_last b'/' (directory path) ≡ String.[]
unfolding ends_in_separator
after_last-directory path = elim (Bool-cases (ends_in_separator path)) [
  | inl ends ↦ rw ends ((==_iff (after_last b'/' path) "").0 ends)
  | inr other ↦ rw other (separator-ends path)
]

after_last-join :
    (path name : String) → IsName name → after_last b'/' (directory path ++ name) ≡ name
after_last-join path name is =
    after_last-append b'/' name is.single (directory path)
    ∙ ap (λ d. d ++ name) (after_last-directory path)
    ∙ nil-append name

trim_end-join :
    (path name : String) → IsName name → trim_end (directory path ++ name) ≡ directory path ++ name
trim_end-join path name is = trim_end-append name is.solid is.whole (directory path)

-- A path that names a file in a directory ends in a file's name.
pub join-EndsInName : (path name : String) → IsName name → EndsInName (join path name)
join-EndsInName path name is =
    subst EndsInName (sym (join-directory path name))
      (trim_end-join path name is, rw (after_last-join path name is) is.named)

up_to_last-join :
    (path name : String) → IsName name → up_to_last b'/' (directory path ++ name) ≡ directory path
up_to_last-join path name is =
    up_to_last-append b'/' name is.single (directory path)
    ∙ sym (append-nil (up_to_last b'/' (directory path)))
    ∙ ap (λ d. up_to_last b'/' (directory path) ++ d) (sym (after_last-directory path))
    ∙ up_to_last-after_last b'/' (directory path)

-- Another extension names a file in the same directory.
pub with_extension-join :
    (extension path name : String)
    → IsName name
    → with_extension extension (join path name) ≡ join path (file_stem name ++ ("." ++ extension))
unfolding with_extension
with_extension-join extension path name is =
    ap (with_extension extension) (join-directory path name)
    ∙ rw
        (
          with_extension,
          trim_end-join path name is,
          after_last-join path name is,
          is.named,
          up_to_last-join path name is,
        )
        refl
    ∙ sym (join-directory path (file_stem name ++ ("." ++ extension)))
