-- ===== src/Coinbase/Requests.antt =====
-- coinbase/mod.rs: what one call of the exchange sends, and what it makes of the answer.
use cryptosweep.Base.{
  ◌≡◌, refl, sym, subst, String, ◌<>◌, ℕ, Option, none, some, List, [], ◌∷◌, ◌++◌, ap, ◌∙◌,
}
use cryptosweep.Base.Text.{before, remove_char}
use cryptosweep.Types.Error.{AppError, Result, ok, err}
use cryptosweep.Coinbase.Task.{
  HttpMethod, get, post, HttpRequest, Answer, Task, done, ◌>>=◌, Event, Runs, Exchange, exchanges,
}
use cryptosweep.Coinbase.Task.Laws.{exchanges-append, stopped, continued, sequence}
use cryptosweep.Coinbase.Auth.{JwtLib, token_of, build_jwt}
use cryptosweep.Coinbase.Reads.{IsErr, BodyOf, Answered, check_answer-BodyOf, deserialize-Parsed}
use cryptosweep.Coinbase.Client.{
  LiveCoinbaseClient, ApiSerde, check_answer, deserialize, send, get_as, post_as,
}

abbrev pub follow {ℓ} :
    {A B : Type ℓ} → Result A AppError → (A → Result B AppError) → Result B AppError
follow (err e) f = err e
follow (ok a) f = f a

module _ {Json : Type 0} (S : ApiSerde Json) where
  abbrev pub read_body :
      {T : Type 0}
      → (String → Result T String)
      → HttpMethod
      → String
      → Result String AppError
      → Result T AppError
  read_body from_str method path (err e) = err e
  read_body from_str method path (ok raw_body) = deserialize S from_str method path raw_body

  -- What the program reads of an answer.
  abbrev pub read_answer :
      {T : Type 0} → (String → Result T String) → HttpMethod → String → Answer → Result T AppError
  read_answer from_str method path a = read_body from_str method path (check_answer S method path a)

  read_body-Answered :
      {T : Type 0} (from_str : String → Result T String) (method : HttpMethod) (path : String)
      (a : Answer) (y : Result String AppError)
      → BodyOf a y
      → Answered from_str a (read_body from_str method path y)
  read_body-Answered from_str method path a (err e) body = (err e, body, refl)
  read_body-Answered from_str method path a (ok s) body =
      (ok s, body, deserialize-Parsed S from_str method path s)

  -- The program reads of an answer what the answer says.
  pub read_answer-Answered :
      {T : Type 0} (from_str : String → Result T String) (method : HttpMethod) (path : String)
      (a : Answer) (x : Result T AppError)
      → read_answer from_str method path a ≡ x
      → Answered from_str a x
  read_answer-Answered from_str method path a x reads = subst (Answered from_str a) reads (
      read_body-Answered from_str method path a (check_answer S method path a)
        (check_answer-BodyOf S method path a))

  module _ (J : JwtLib) (c : LiveCoinbaseClient J.SigningKey) where
    -- The request goes to the path under the API's address, with the body, under a fresh token of
    -- the client's key for this method and this path without its query.
    abbrev pub IsRequest : HttpMethod → String → Option Json → HttpRequest Json → Type 0
    IsRequest method path body q =
        (now : ℕ) × (uuid : String) × (q ≡ record {
          method = method;
          url = "https://api.coinbase.com" <> path;
          authorization =
              "Bearer "
              <> token_of J c.api_key c.signing_key method (before b'?' path) now
                  (remove_char b'-' uuid);
          body = body;
        })

    pub send-Runs :
        (method : HttpMethod) (path : String) (body : Option Json) (t : List (Event Json))
        (r : Result String AppError)
        → Runs (send S J c method path body) t r
        → (q : HttpRequest Json) × (a : Answer) × IsRequest method path body q
          × (exchanges t ≡ (q, a) ∷ [])
          × (r ≡ check_answer S method path a)
    unfolding send build_jwt
    send-Runs method path body t r (now, _, et, (uuid, _, eu, (a, _, ea, (en, er)))) =
        (_, a, (now, uuid, refl), rw (et, eu, ea, en) refl, er)

    -- One request, and the reading of its answer.
    call-Runs :
        {T : Type 0} (from_str : String → Result T String) (method : HttpMethod) (path : String)
        (body : Option Json) (t : List (Event Json)) (r : Result T AppError)
        → Runs
            (send S J c method path body >>= λ raw_body.
              done (deserialize S from_str method path raw_body))
            t
            r
        → (q : HttpRequest Json) × (a : Answer) × IsRequest method path body q
          × (exchanges t ≡ (q, a) ∷ [])
          × (r ≡ read_answer from_str method path a)
    call-Runs from_str method path body t r runs =
        elim (sequence (send S J c method path body) _ t r runs) [
          | stopped e run er ↦
              let (q, a, is, ex, ea) = send-Runs method path body t (err e) run in
              (q, a, is, ex, er ∙ ap (read_body from_str method path) ea)
          | continued raw first rest run (en, er) split ↦
              let (q, a, is, ex, ea) = send-Runs method path body first (ok raw) run in
              (
                q,
                a,
                is,
                rw (split, en, exchanges-append first [], ex) refl,
                er ∙ ap (read_body from_str method path) ea,
              )
        ]

    pub get_as-Runs :
        {T : Type 0} (from_str : String → Result T String) (path : String) (t : List (Event Json))
        (r : Result T AppError)
        → Runs (get_as S J c from_str path) t r
        → (q : HttpRequest Json) × (a : Answer) × IsRequest get path none q
          × (exchanges t ≡ (q, a) ∷ [])
          × (r ≡ read_answer from_str get path a)
    unfolding get_as
    get_as-Runs from_str path t r runs = call-Runs from_str get path none t r runs

    -- A POST request is sent once, or not at all where its body cannot be serialized.
    pub data Posted {T : Type 0} (body : Result Json String) (from_str : String → Result T String)
        (path : String) (xs : List (Exchange Json)) (r : Result T AppError) : Type 0 where
      unsent : xs ≡ [] → IsErr r → Posted body from_str path xs r
      sent :
          (json : Json) (q : HttpRequest Json) (a : Answer)
          → body ≡ ok json
          → IsRequest post path (some json) q
          → xs ≡ (q, a) ∷ []
          → r ≡ read_answer from_str post path a
          → Posted body from_str path xs r

    pub post_as-Runs :
        {T : Type 0} (body : Result Json String) (from_str : String → Result T String)
        (path : String) (t : List (Event Json)) (r : Result T AppError)
        → Runs (post_as S J c body from_str path) t r
        → Posted body from_str path (exchanges t) r
    unfolding post_as
    post_as-Runs (err m) from_str path t r (et, er) = unsent (rw et refl) (_, er)
    post_as-Runs (ok json) from_str path t r runs =
        let (q, a, is, ex, ea) = call-Runs from_str post path (some json) t r runs in
        sent json q a refl is ex ea

    -- A POST request with what follows it.
    pub data PostedThen {T B : Type 0} (body : Result Json String)
        (from_str : String → Result T String) (path : String) (f : T → Task Json B)
        (t : List (Event Json)) (r : Result B AppError) : Type 0 where
      not_sent : exchanges t ≡ [] → IsErr r → PostedThen body from_str path f t r
      refused :
          (json : Json) (q : HttpRequest Json) (a : Answer) (e : AppError)
          → body ≡ ok json
          → IsRequest post path (some json) q
          → exchanges t ≡ (q, a) ∷ []
          → read_answer from_str post path a ≡ err e
          → r ≡ err e
          → PostedThen body from_str path f t r
      went_on :
          (json : Json) (q : HttpRequest Json) (a : Answer) (resp : T) (rest : List (Event Json))
          → body ≡ ok json
          → IsRequest post path (some json) q
          → exchanges t ≡ (q, a) ∷ exchanges rest
          → read_answer from_str post path a ≡ ok resp
          → Runs (f resp) rest r
          → PostedThen body from_str path f t r

    pub post_as-then :
        {T B : Type 0} (body : Result Json String) (from_str : String → Result T String)
        (path : String) (f : T → Task Json B) (t : List (Event Json)) (r : Result B AppError)
        → Runs (post_as S J c body from_str path >>= f) t r
        → PostedThen body from_str path f t r
    post_as-then body from_str path f t r runs =
        elim (sequence (post_as S J c body from_str path) f t r runs) [
          | stopped e run er ↦ elim (post_as-Runs body from_str path t (err e) run) [
            | unsent none_sent _ ↦ not_sent none_sent (e, er)
            | sent json q a prints is ex ea ↦ refused json q a e prints is ex (sym ea) er
          ]
          | continued resp first rest run run' split ↦
              elim (post_as-Runs body from_str path first (ok resp) run) [
                | unsent _ (e, bad) ↦ absurd (cc bad)
                | sent json q a prints is ex ea ↦
                    went_on json q a resp rest prints is
                      (ap exchanges split
                        ∙ exchanges-append first rest
                        ∙ ap (λ x. x ++ exchanges rest) ex)
                      (sym ea) run'
              ]
        ]

    -- A GET request, and a result that is computed from what is read.
    pub get_as-then :
        {T B : Type 0} (from_str : String → Result T String) (path : String)
        (f : T → Result B AppError) (t : List (Event Json)) (r : Result B AppError)
        → Runs (get_as S J c from_str path >>= λ resp. done (f resp)) t r
        → (q : HttpRequest Json) × (a : Answer) × IsRequest get path none q
          × (exchanges t ≡ (q, a) ∷ [])
          × (r ≡ follow (read_answer from_str get path a) f)
    get_as-then from_str path f t r runs = elim (sequence (get_as S J c from_str path) _ t r runs) [
      | stopped e run er ↦
          let (q, a, is, ex, ea) = get_as-Runs from_str path t (err e) run in
          (q, a, is, ex, er ∙ ap (λ x. follow x f) ea)
      | continued resp first rest run (en, er) split ↦
          let (q, a, is, ex, ea) = get_as-Runs from_str path first (ok resp) run in
          (
            q,
            a,
            is,
            rw (split, en, exchanges-append first [], ex) refl,
            er ∙ ap (λ x. follow x f) ea,
          )
    ]
