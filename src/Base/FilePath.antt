-- ===== src/Base/FilePath.antt =====
-- `std::path` on Unix, as far as the program uses it: `join` and `with_extension` of a `PathBuf`.
pub mod Laws
use Prim.Native.Nat.{ℕ}
use Prim.Native.Char.{Char, code}
use Prim.Native.String.{String, ◌++◌}
use mathlib.Core.Path.{◌≡◌, refl, sym, ap, ◌∙◌}
use mathlib.Core.Logic.{◌≢◌, inl, inr}
use mathlib.Core.Bool.{Bool, true, false, not, ◌&&◌}
use native.Mathlib.Omega.{arith}
use text.Mathlib.TextLemmas.{
  nil-append, cons-append, append_assoc, append-nil, append_cancel_left, nil≢cons,
  tail-eq_of_cons-eq,
}
use cryptosweep.Base.Compare.{if◌then◌else◌, Bool-cases}
use cryptosweep.Base.Equality.{◌==◌, nat_eq, string_eq}
use cryptosweep.Base.Text.{lacks}

-- A rest that names nothing: separators, and `.` between them.
unfoldable pub is_blank : Bool → String → Bool
is_blank behind String.[] = true
is_blank behind (String.◌∷◌ a s) =
    let rest = is_blank (code a == b'/') s in
    if code a == b'/' then rest else behind && code a == b'.' && rest

-- The path without the separators and the `.` at its end.
unfoldable pub trim_end : String → String
unfolding is_blank
trim_end String.[] = String.[]
trim_end (String.◌∷◌ a s) =
    let rest = trim_end s in
    if is_blank false (String.◌∷◌ a s) then String.[] else String.◌∷◌ a rest

-- What stands behind the last `c`, or the whole text.
unfoldable pub after_last : ℕ → String → String
unfolding lacks
after_last c String.[] = String.[]
after_last c (String.◌∷◌ a s) =
    let rest = after_last c s in
    if lacks c s then if code a == c then s else String.◌∷◌ a s else rest

-- What stands before the last `c`, or nothing.
unfoldable pub before_last : ℕ → String → String
unfolding lacks
before_last c String.[] = String.[]
before_last c (String.◌∷◌ a s) =
    let rest = before_last c s in if lacks c s then String.[] else String.◌∷◌ a rest

-- What stands up to the last `c`, with it.
unfoldable pub up_to_last : ℕ → String → String
unfolding lacks
up_to_last c String.[] = String.[]
up_to_last c (String.◌∷◌ a s) =
    let rest = up_to_last c s in
    if lacks c s
    then if code a == c then String.◌∷◌ a String.[] else String.[]
    else String.◌∷◌ a rest

-- `file_name`, which `.` and `..` do not have, and neither has the root.
unfoldable pub is_file_name : String → Bool
is_file_name n = not (n == "") && not (n == ".") && not (n == "..")

-- `file_stem` of a file's name: the dot that it begins with is none before an extension.
unfoldable pub file_stem : String → String
unfolding lacks before_last
file_stem String.[] = String.[]
file_stem (String.◌∷◌ a m) =
    if lacks b'.' m then String.◌∷◌ a m else String.◌∷◌ a (before_last b'.' m)

-- `with_extension`, for an extension that is not empty.
unfoldable pub with_extension : String → String → String
unfolding trim_end after_last up_to_last is_file_name file_stem
with_extension extension path =
    let t = trim_end path in
    if is_file_name (after_last b'/' t)
    then up_to_last b'/' t ++ (file_stem (after_last b'/' t) ++ ("." ++ extension))
    else path

-- `parent().is_some()`
unfoldable pub has_parent : String → Bool
unfolding trim_end
has_parent path = not (trim_end path == "")

unfoldable pub ends_in_separator : String → Bool
unfolding lacks after_last
ends_in_separator path = after_last b'/' path == ""

-- `join` of a path that does not begin with a separator.
unfoldable pub join : String → String → String
unfolding ends_in_separator
join path child = if ends_in_separator path then path ++ child else path ++ ("/" ++ child)

-- The path ends in the name of a file, without a separator behind it.
abbrev pub EndsInName : String → Type 0
EndsInName path = (trim_end path ≡ path) × (is_file_name (after_last b'/' path) ≡ true)

pub up_to_last-after_last : (c : ℕ) (s : String) → up_to_last c s ++ after_last c s ≡ s
unfolding up_to_last after_last
up_to_last-after_last c String.[] = nil-append String.[]
up_to_last-after_last c (String.◌∷◌ a s) = elim (Bool-cases (lacks c s)) [
  | inr more ↦ rw more (
      cons-append a (up_to_last c s) (after_last c s)
      ∙ ap (String.◌∷◌ a) (up_to_last-after_last c s))
  | inl last ↦ elim (Bool-cases (code a == c)) [
    | inl here ↦ rw (last, here) (cons-append a String.[] s ∙ ap (String.◌∷◌ a) (nil-append s))
    | inr other ↦ rw (last, other) (nil-append (String.◌∷◌ a s))
  ]
]

before_last-after_last :
    (c : ℕ) (s : String)
    → lacks c s ≡ false
    → (x : Char) × (s ≡ before_last c s ++ String.◌∷◌ x (after_last c s))
unfolding lacks before_last after_last
before_last-after_last c String.[] h = absurd (cc h)
before_last-after_last c (String.◌∷◌ a s) h = elim (Bool-cases (lacks c s)) [
  | inr more ↦
      let (x, parts) = before_last-after_last c s more in
      (
        x,
        rw more (
            ap (String.◌∷◌ a) parts
            ∙ sym (cons-append a (before_last c s) (String.◌∷◌ x (after_last c s)))),
      )
  | inl last ↦ elim (Bool-cases (code a == c)) [
    | inl here ↦ (a, rw (last, here) (sym (nil-append (String.◌∷◌ a s))))
    | inr other ↦ absurd (ground (arith, h, last, other))
  ]
]

lacks-after_last : (c : ℕ) (s : String) → lacks c (after_last c s) ≡ true
unfolding lacks after_last
lacks-after_last c String.[] = refl
lacks-after_last c (String.◌∷◌ a s) = ground (arith, lacks-after_last c s)

dotted_text : (extension : String) → "." ++ extension ≡ String.◌∷◌ "." extension
dotted_text extension =
    cons-append "." String.[] extension ∙ ap (String.◌∷◌ ".") (nil-append extension)

file_stem-apart :
    (extension n : String) → lacks b'.' extension ≡ false → n ≢ file_stem n ++ ("." ++ extension)
unfolding file_stem
file_stem-apart extension String.[] dotted same =
    nil≢cons (same ∙ nil-append ("." ++ extension) ∙ dotted_text extension)
file_stem-apart extension (String.◌∷◌ a m) dotted same = elim (Bool-cases (lacks b'.' m)) [
  | inl bare ↦ nil≢cons (
      append_cancel_left (String.◌∷◌ a m) String.[] ("." ++ extension)
        (append-nil (String.◌∷◌ a m) ∙ (rw bare at same))
      ∙ dotted_text extension)
  | inr more ↦
      let (x, parts) = before_last-after_last b'.' m more in
      let rest : m ≡ before_last b'.' m ++ ("." ++ extension) =
        tail-eq_of_cons-eq
          ((rw more at same) ∙ cons-append a (before_last b'.' m) ("." ++ extension)) in
      let ends : after_last b'.' m ≡ extension = tail-eq_of_cons-eq (
        append_cancel_left (before_last b'.' m) (String.◌∷◌ x (after_last b'.' m))
          ("." ++ extension) (sym parts ∙ rest)
        ∙ dotted_text extension) in
      cc (dotted, lacks-after_last b'.' m, ap (lacks b'.') ends)
]

-- A file with another extension that has a dot in it is another file.
pub with_extension-apart :
    (extension path : String)
    → EndsInName path
    → lacks b'.' extension ≡ false
    → path ≢ with_extension extension path
unfolding with_extension
with_extension-apart extension path (plain, name) dotted same =
    let other : with_extension extension path
        ≡ up_to_last b'/' path ++ (file_stem (after_last b'/' path) ++ ("." ++ extension)) =
      rw (plain, name) refl in
    file_stem-apart extension (after_last b'/' path) dotted (
      append_cancel_left (up_to_last b'/' path) (after_last b'/' path)
        (file_stem (after_last b'/' path) ++ ("." ++ extension))
        (up_to_last-after_last b'/' path ∙ same ∙ other))
