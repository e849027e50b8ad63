-- ===== src/Coinbase/Key.antt =====
-- coinbase/auth.rs: a key whose line breaks were escaped is the same key.
use Prim.Native.Char.{Char, code}
use text.Mathlib.TextEquality.{Char-path}
use mathlib.Core.Path.{ap₂}
use cryptosweep.Base.{
  ◌≡◌, refl, sym, ap, ◌∙◌, inl, inr, Bool-cases, ==_iff, String, true, false, arith, ◌==◌, nat_eq,
  if◌then◌else◌,
}
use cryptosweep.Base.Text.{lacks}
use cryptosweep.Coinbase.Auth.{JwtLib, unescape_newlines, parse_pem_key}

-- `replace('\n', "\\n")`: how a key with several lines is written on one.
unfoldable pub escape_newlines : String → String
escape_newlines String.[] = String.[]
escape_newlines (String.◌∷◌ a s) =
    let rest = escape_newlines s in
    if code a == b'\n' then String.◌∷◌ "\\" (String.◌∷◌ "n" rest) else String.◌∷◌ a rest

unescape-nil : unescape_newlines "" ≡ ""
unfolding unescape_newlines nat_eq
unescape-nil = refl

unescape-pair :
    (t : String)
    → unescape_newlines (String.◌∷◌ "\\" (String.◌∷◌ "n" t)) ≡ String.◌∷◌ "\n" (unescape_newlines t)
unfolding unescape_newlines nat_eq
unescape-pair t = refl

-- No escape begins at another character.
unescape-skip :
    (a : Char) (t : String)
    → (code a == b'\\') ≡ false
    → unescape_newlines (String.◌∷◌ a t) ≡ String.◌∷◌ a (unescape_newlines t)
unfolding unescape_newlines
unescape-skip a String.[] h = refl
unescape-skip a (String.◌∷◌ b t) h = rw (h, unescape_newlines) refl

newline_path : (a : Char) → (code a == b'\n') ≡ true → "\n" ≡ a
newline_path a h = sym (Char-path a "\n" ((==_iff (code a) b'\n').0 h))

unescape-escape : (s : String) → lacks b'\\' s ≡ true → unescape_newlines (escape_newlines s) ≡ s
unfolding escape_newlines lacks
unescape-escape String.[] h = unescape-nil
unescape-escape (String.◌∷◌ a s) h =
    let ih : unescape_newlines (escape_newlines s) ≡ s = unescape-escape s (ground arith) in
    elim (Bool-cases (code a == b'\n')) [
      | inl newline ↦
          rw newline
            (unescape-pair (escape_newlines s) ∙ ap₂ String.◌∷◌ (newline_path a newline) ih)
      | inr other ↦
          rw other (unescape-skip a (escape_newlines s) (ground arith) ∙ ap (String.◌∷◌ a) ih)
    ]

-- A text without a backslash has nothing to unescape.
unescape_plain : (s : String) → lacks b'\\' s ≡ true → unescape_newlines s ≡ s
unfolding lacks
unescape_plain String.[] h = unescape-nil
unescape_plain (String.◌∷◌ a s) h =
    unescape-skip a s (ground arith) ∙ ap (String.◌∷◌ a) (unescape_plain s (ground arith))

-- A key whose line breaks were escaped parses as the key itself does. It has no backslash.
pub parse_pem_key-escape :
    (J : JwtLib) (pem : String)
    → lacks b'\\' pem ≡ true
    → parse_pem_key J (escape_newlines pem) ≡ parse_pem_key J pem
unfolding parse_pem_key
parse_pem_key-escape J pem h = rw (unescape-escape pem h, unescape_plain pem h)
