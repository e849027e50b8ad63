-- ===== src/Coinbase/Token.antt =====
-- coinbase/auth.rs: a token opens with the key's public half, and names its request.
use Prim.Native.Char.{Char}
use text.Mathlib.TextLemmas.{nil-append, cons-append, append_assoc}
use cryptosweep.Base.{
  ◌≡◌, refl, ap, ◌∙◌, String, ◌<>◌, ℕ, Bool, true, Option, none, some, if◌then◌else◌,
}
use cryptosweep.Base.Text.{before, behind, lacks, before-append, behind-append}
use cryptosweep.Coinbase.Task.{HttpMethod}
use cryptosweep.Coinbase.Auth.{JwtLib, jwt_header, jwt_claims, jwt_uri, token_of}

-- What the libraries document: base64 can be decoded and uses no dots, and a signature verifies
-- under the public half of the key that made it.
pub record JwtReader (J : JwtLib) : Type 1 where
  pub VerifyingKey : Type 0
  pub verifying_key : J.SigningKey → VerifyingKey
  pub verify : VerifyingKey → String → J.Signature → Bool
  pub decode : String → Option String
  pub decode_signature : String → Option J.Signature
  pub decode-encode : (s : String) → decode (J.encode s) ≡ some s
  pub decode-encode_signature : (s : J.Signature) → decode_signature (J.encode_signature s) ≡ some s
  pub dotless : (s : String) → lacks b'.' (J.encode s) ≡ true
  pub verifies : (k : J.SigningKey) (s : String) → verify (verifying_key k) s (J.sign k s) ≡ true

abbrev dot : Char
dot = "."

dot-join : (t : String) → "." <> t ≡ String.◌∷◌ dot t
dot-join t = cons-append dot "" t ∙ ap (String.◌∷◌ dot) (nil-append t)

before-join : (h t : String) → lacks b'.' h ≡ true → before b'.' (h <> "." <> t) ≡ h
before-join h t dotless =
    ap (λ x. before b'.' (h <> x)) (dot-join t) ∙ before-append dot h t dotless

behind-join : (h t : String) → lacks b'.' h ≡ true → behind b'.' (h <> "." <> t) ≡ t
behind-join h t dotless =
    ap (λ x. behind b'.' (h <> x)) (dot-join t) ∙ behind-append dot h t dotless

-- Three texts with dots between them, bracketed to the right.
regroup : (h c s : String) → (h <> "." <> c) <> "." <> s ≡ h <> "." <> (c <> "." <> s)
regroup h c s =
    append_assoc h ("." <> c) ("." <> s) ∙ ap (λ x. h <> x) (append_assoc "." c ("." <> s))

abbrev pub and_decoded : Option String → Option String → Option (String × String)
and_decoded none o = none
and_decoded (some h) none = none
and_decoded (some h) (some c) = some (h, c)

module _ (J : JwtLib) (R : JwtReader J) where
  open J use {SigningKey, Signature, print, encode, encode_signature, sign}
  open R use {
    VerifyingKey, verifying_key, verify, decode, decode_signature, decode-encode,
    decode-encode_signature, dotless, verifies,
  }

  abbrev pub check_signature :
      VerifyingKey → String → String → Option Signature → Option (String × String)
  check_signature key header claims none = none
  check_signature key header claims (some s) =
      if verify key (header <> "." <> claims) s
      then and_decoded (decode header) (decode claims)
      else none

  -- How a server reads a token: three parts between dots, of which the last signs the others. The
  -- texts of the header and of the claims, if the signature verifies.
  unfoldable pub read_token : VerifyingKey → String → Option (String × String)
  read_token key token =
      let rest = behind b'.' token in
      check_signature key (before b'.' token) (before b'.' rest)
        (decode_signature (behind b'.' rest))

  read_parts :
      (k : SigningKey) (h c : String)
      → read_token (verifying_key k) (
          (encode h <> "." <> encode c)
          <> "."
          <> encode_signature (sign k (encode h <> "." <> encode c)))
        ≡ some (h, c)
  unfolding read_token
  read_parts k h c =
      rw
        (
          regroup (encode h) (encode c) (encode_signature (sign k (encode h <> "." <> encode c))),
          before-join (encode h)
              (encode c <> "." <> encode_signature (sign k (encode h <> "." <> encode c)))
              (dotless h),
          behind-join (encode h)
              (encode c <> "." <> encode_signature (sign k (encode h <> "." <> encode c)))
              (dotless h),
          before-join (encode c) (encode_signature (sign k (encode h <> "." <> encode c)))
              (dotless c),
          behind-join (encode c) (encode_signature (sign k (encode h <> "." <> encode c)))
              (dotless c),
          decode-encode_signature (sign k (encode h <> "." <> encode c)),
          verifies k (encode h <> "." <> encode c),
          decode-encode h,
          decode-encode c,
        )
        refl

  -- The token of a request opens under the public half of its key, and says which key made it,
  -- from when and for how long it is valid, and for which method and path.
  pub read_token-token_of :
      (key_name : String) (k : SigningKey) (method : HttpMethod) (path : String) (now : ℕ)
      (nonce : String)
      → read_token (verifying_key k) (token_of J key_name k method path now nonce)
        ≡ some (
          print (jwt_header key_name nonce),
          print (jwt_claims key_name now (jwt_uri method path)),
        )
  read_token-token_of key_name k method path now nonce =
      read_parts k (print (jwt_header key_name nonce))
        (print (jwt_claims key_name now (jwt_uri method path)))
