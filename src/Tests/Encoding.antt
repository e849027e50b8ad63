-- ===== src/Tests/Encoding.antt =====
-- A stand-in for base64 and for signatures: an encoding without dots that can be decoded, and
-- signatures that are the signed text.
use Prim.Native.Char.{Char, code}
use text.Mathlib.TextEquality.{Char-path}
use mathlib.Core.Path.{ap₂}
use cryptosweep.Base.{
  ◌≡◌, refl, sym, ap, ◌∙◌, inl, inr, String, true, false, some, Bool-cases, ◌==◌, ==_iff, nat_eq,
  string_eq, if◌then◌else◌, arith,
}
use cryptosweep.Base.Text.{lacks}
use cryptosweep.Types.Error.{ok}
use cryptosweep.Coinbase.Auth.{JwtLib}
use cryptosweep.Coinbase.Token.{JwtReader}

-- `.` becomes `!d` and `!` becomes `!e`.
unfoldable pub encode : String → String
encode String.[] = String.[]
encode (String.◌∷◌ a s) =
    let rest = encode s in
    if code a == b'.'
    then String.◌∷◌ "!" (String.◌∷◌ "d" rest)
    else if code a == b'!'
    then String.◌∷◌ "!" (String.◌∷◌ "e" rest)
    else String.◌∷◌ a rest

unfoldable pub decode : String → String
decode String.[] = String.[]
decode (String.◌∷◌ a String.[]) = String.◌∷◌ a String.[]
decode (String.◌∷◌ a (String.◌∷◌ b s)) = elim (code a == b'!') [
  | true ↦ String.◌∷◌ (if code b == b'd' then "." else "!") (decode s)
  | false ↦ String.◌∷◌ a (decode (String.◌∷◌ b s))
]

decode-nil : decode "" ≡ ""
unfolding decode
decode-nil = refl

decode-dot : (s : String) → decode (String.◌∷◌ "!" (String.◌∷◌ "d" s)) ≡ String.◌∷◌ "." (decode s)
unfolding decode nat_eq
decode-dot s = refl

decode-mark : (s : String) → decode (String.◌∷◌ "!" (String.◌∷◌ "e" s)) ≡ String.◌∷◌ "!" (decode s)
unfolding decode nat_eq
decode-mark s = refl

decode-plain :
    (a : Char) (s : String)
    → (code a == b'!') ≡ false
    → decode (String.◌∷◌ a s) ≡ String.◌∷◌ a (decode s)
unfolding decode
decode-plain a String.[] h = refl
decode-plain a (String.◌∷◌ b s) h = rw (h, decode) refl

pub decode-encode : (s : String) → decode (encode s) ≡ s
unfolding encode
decode-encode String.[] = decode-nil
decode-encode (String.◌∷◌ a s) = elim (Bool-cases (code a == b'.')) [
  | inl dot ↦ rw dot (
      decode-dot (encode s)
      ∙ ap₂ String.◌∷◌ (sym (Char-path a "." ((==_iff (code a) b'.').0 dot))) (decode-encode s))
  | inr other ↦ elim (Bool-cases (code a == b'!')) [
    | inl mark ↦
        rw (other, mark)
          (decode-mark (encode s)
            ∙ ap₂ String.◌∷◌ (sym (Char-path a "!" ((==_iff (code a) b'!').0 mark)))
                (decode-encode s))
    | inr plain ↦
        rw (other, plain) (decode-plain a (encode s) plain ∙ ap (String.◌∷◌ a) (decode-encode s))
  ]
]

pub lacks-encode : (s : String) → lacks b'.' (encode s) ≡ true
unfolding lacks encode nat_eq
lacks-encode String.[] = refl
lacks-encode (String.◌∷◌ a s) = ground (arith, lacks-encode s)

pub verifies : (k s : String) → (s == s) ≡ true
verifies k s = (==_iff s s).1 refl

abbrev pub jwt : JwtLib
jwt = record {
  SigningKey = String;
  Signature = String;
  print = λ o. "{}";
  encode = encode;
  encode_signature = encode;
  sign = λ k s. s;
  from_pkcs8_pem = λ s. ok s;
  from_sec1_pem = λ s. ok s;
}

abbrev pub reader : JwtReader jwt
reader = record {
  VerifyingKey = String;
  verifying_key = λ k. k;
  verify = λ k s t. s == t;
  decode = λ s. some (decode s);
  decode_signature = λ s. some (decode s);
  decode-encode = λ s. ap some (decode-encode s);
  decode-encode_signature = λ s. ap some (decode-encode s);
  dotless = lacks-encode;
  verifies = verifies;
}
