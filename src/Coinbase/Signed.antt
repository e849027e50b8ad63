-- ===== src/Coinbase/Signed.antt =====
-- coinbase/mod.rs: every request of the client carries a token for itself and nothing else.
use cryptosweep.Base.{
  ◌≡◌, refl, sym, subst, String, ◌<>◌, ℕ, ◌+◌, true, Option, some, List, [], ◌∷◌,
}
use cryptosweep.Base.Text.{before, remove_char, lacks, lacks-remove_char}
use cryptosweep.Types.Error.{AppError, Result}
use cryptosweep.Coinbase.Task.{
  HttpMethod, get, post, method_name, HttpRequest, Answer, Event, Runs, exchanges,
}
use cryptosweep.Coinbase.Auth.{JwtLib, text, number, jwt_header, jwt_claims, token_of}
use cryptosweep.Coinbase.Token.{JwtReader, read_token, read_token-token_of}
use cryptosweep.Coinbase.Client.{LiveCoinbaseClient, ApiSerde, send}
use cryptosweep.Coinbase.Reads.{BodyOf, check_answer-BodyOf}
use cryptosweep.Coinbase.Requests.{send-Runs}

module _ (J : JwtLib) (R : JwtReader J) {Json : Type 0} (S : ApiSerde Json)
    (c : LiveCoinbaseClient J.SigningKey) where
  open R use {verifying_key}

  abbrev verb : HttpMethod → String
  verb get = "GET"
  verb post = "POST"

  verb-method_name : (method : HttpMethod) → method_name method ≡ verb method
  unfolding method_name
  verb-method_name get = refl
  verb-method_name post = refl

  -- The request carries a token that opens under the public half of the client's key. Its header
  -- names the key and a nonce without dashes, and its claims the client, the issuer, two minutes
  -- from the time of the request, and the method and path without the query.
  abbrev pub IsAuthorized : HttpMethod → String → HttpRequest Json → Type 0
  IsAuthorized method path q =
      (token : String) × (nonce : String) × (now : ℕ) × (q.authorization ≡ "Bearer " <> token)
      × (lacks b'-' nonce ≡ true)
      × (read_token J R (verifying_key c.signing_key) token
          ≡ some (
            J.print (
                ("alg", text "ES256")
                ∷ ("typ", text "JWT")
                ∷ ("kid", text c.api_key)
                ∷ ("nonce", text nonce)
                ∷ []),
            J.print (
                ("sub", text c.api_key)
                ∷ ("iss", text "cdp")
                ∷ ("nbf", number now)
                ∷ ("exp", number (now + 120))
                ∷ ("uri", text (verb method <> " api.coinbase.com" <> before b'?' path))
                ∷ []),
          ))

  -- A send makes exactly one request: with the method and the body, to the path with its query, under
  -- a token that a server can open with the public half of the client's key and that is bound to
  -- this method and path, for two minutes. The result is the body of the answer where its status is
  -- from 200 to 299, and an error where it is not or where there is no answer.
  pub send-IsAuthorized :
      (method : HttpMethod) (path : String) (body : Option Json) (t : List (Event Json))
      (r : Result String AppError)
      → Runs (send S J c method path body) t r
      → (q : HttpRequest Json) × (a : Answer) × (exchanges t ≡ (q, a) ∷ [])
        × (q.method ≡ method)
        × (q.url ≡ "https://api.coinbase.com" <> path)
        × (q.body ≡ body)
        × IsAuthorized method path q
        × BodyOf a r
  send-IsAuthorized method path body t r runs =
      let (q, a, (now, uuid, is), ex, er) = send-Runs S J c method path body t r runs in
      let nonce = remove_char b'-' uuid in
      let token = token_of J c.api_key c.signing_key method (before b'?' path) now nonce in
      (
        q,
        a,
        ex,
        rw is refl,
        rw is refl,
        rw is refl,
        (
          token,
          nonce,
          now,
          rw is refl,
          lacks-remove_char b'-' uuid,
          subst
              (λ v.
                read_token J R (verifying_key c.signing_key) token
                ≡ some (
                  J.print (jwt_header c.api_key nonce),
                  J.print (jwt_claims c.api_key now (v <> " api.coinbase.com" <> before b'?' path)),
                ))
              (verb-method_name method)
              (read_token-token_of J R c.api_key c.signing_key method (before b'?' path) now nonce),
        ),
        subst (BodyOf a) (sym er) (check_answer-BodyOf S method path a),
      )
