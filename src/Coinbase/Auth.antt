-- ===== src/Coinbase/Auth.antt =====
-- coinbase/auth.rs: the tokens that sign requests, and the parsing of the key.
use Prim.Native.Char.{code}
use cryptosweep.Base.{String, ◌<>◌, ℕ, ◌+◌, Bool, ◌&&◌, List, [], ◌∷◌, ◌==◌, nat_eq}
use cryptosweep.Base.Text.{remove_char}
use cryptosweep.Types.Error.{AppError, coinbase, Result, ok, err, map_err}
use cryptosweep.Coinbase.Task.{
  HttpMethod, method_name, Task, done, perform, current_timestamp, new_v4, ◌>>=◌,
}

-- The values of a JSON object of the `json!` macro.
pub data JsonField : Type 0 where
  text : String → JsonField
  number : ℕ → JsonField

abbrev pub JsonObject : Type 0
JsonObject = List (String × JsonField)

-- The libraries behind a token. `print` is the text of a JSON object, `sign` signs the bytes of a
-- text, and both encodings are URL-safe base64 without padding.
pub record JwtLib : Type 1 where
  pub SigningKey : Type 0
  pub Signature : Type 0
  pub print : JsonObject → String
  pub encode : String → String
  pub encode_signature : Signature → String
  pub sign : SigningKey → String → Signature
  pub from_pkcs8_pem : String → Result SigningKey String
  pub from_sec1_pem : String → Result SigningKey String

abbrev pub jwt_header : String → String → JsonObject
jwt_header key_name nonce =
    ("alg", text "ES256")
    ∷ ("typ", text "JWT")
    ∷ ("kid", text key_name)
    ∷ ("nonce", text nonce)
    ∷ []

abbrev pub jwt_claims : String → ℕ → String → JsonObject
jwt_claims key_name now uri =
    ("sub", text key_name)
    ∷ ("iss", text "cdp")
    ∷ ("nbf", number now)
    ∷ ("exp", number (now + 120))
    ∷ ("uri", text uri)
    ∷ []

abbrev pub jwt_uri : HttpMethod → String → String
jwt_uri method path = method_name method <> " api.coinbase.com" <> path

-- `replace("\\n", "\n")`: each backslash with an `n` behind it becomes a line break.
unfoldable pub unescape_newlines : String → String
unescape_newlines String.[] = String.[]
unescape_newlines (String.◌∷◌ a String.[]) = String.◌∷◌ a String.[]
unescape_newlines (String.◌∷◌ a (String.◌∷◌ b s)) = elim (code a == b'\\' && code b == b'n') [
  | Bool.true ↦ String.◌∷◌ "\n" (unescape_newlines s)
  | Bool.false ↦ String.◌∷◌ a (unescape_newlines (String.◌∷◌ b s))
]

module _ (J : JwtLib) where
  open J use {SigningKey, print, encode, encode_signature, sign, from_pkcs8_pem, from_sec1_pem}

  abbrev pub signing_input : String → HttpMethod → String → ℕ → String → String
  signing_input key_name method path now nonce =
      encode (print (jwt_header key_name nonce))
      <> "."
      <> encode (print (jwt_claims key_name now (jwt_uri method path)))

  abbrev pub token_of : String → SigningKey → HttpMethod → String → ℕ → String → String
  token_of key_name signing_key method path now nonce =
      signing_input key_name method path now nonce
      <> "."
      <> encode_signature (sign signing_key (signing_input key_name method path now nonce))

  unfoldable pub build_jwt :
      {Json : Type 0} → String → SigningKey → HttpMethod → String → Task Json String
  build_jwt key_name signing_key method path = do
    now ← perform current_timestamp
    uuid ← perform new_v4
    done (ok (token_of key_name signing_key method path now (remove_char b'-' uuid)))

  -- `or_else`: the second format is tried where the first fails.
  abbrev or_sec1 : String → Result SigningKey String → Result SigningKey String
  or_sec1 pem (ok key) = ok key
  or_sec1 pem (err e) = from_sec1_pem pem

  unfoldable pub parse_pem_key : String → Result SigningKey AppError
  unfolding unescape_newlines
  parse_pem_key pem =
      let normalized = unescape_newlines pem in
      map_err (λ e. coinbase ("Invalid ECDSA P-256 key: " <> e))
        (or_sec1 normalized (from_pkcs8_pem normalized))
