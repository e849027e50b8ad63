-- ===== src/Coinbase/Task.antt =====
-- coinbase/: what the client does outside the program, one effect at a time: it reads the clock,
-- draws random identifiers and sends requests. The environment chooses every response.
pub mod Laws
use cryptosweep.Base.{◌≡◌, String, ℕ, Option, List, [], ◌∷◌}
use cryptosweep.Types.Error.{AppError, Result, ok, err}

pub data HttpMethod : Type 0 where
  get post : HttpMethod

-- The derived `Display`, in upper case.
unfoldable pub method_name : HttpMethod → String
method_name get = "GET"
method_name post = "POST"

-- A request as it is handed to the HTTP library; `Json` is the type of JSON values.
pub record HttpRequest (Json : Type 0) : Type 0 where
  pub method : HttpMethod
  pub url : String
  pub authorization : String
  pub body : Option Json

-- An answer of the server: its status, and what reading the body gave.
pub record Reply : Type 0 where
  pub status : ℕ
  pub text : Result String String

-- What sending gave: an answer, or the text of the HTTP library's error.
abbrev pub Answer : Type 0
Answer = Result Reply String

pub data Effect (Json : Type 0) : Type 0 where
  current_timestamp : Effect Json
  new_v4 : Effect Json
  send_request : HttpRequest Json → Effect Json
  utc_now : Effect Json

abbrev pub Response : {Json : Type 0} → Effect Json → Type 0
Response current_timestamp = ℕ
Response new_v4 = String
Response (send_request q) = Answer
Response utc_now = ℕ

-- A computation that ends in a result, after the effects on its way.
pub data Task (Json A : Type 0) : Type 0 where
  done : Result A AppError → Task Json A
  step : (k : Effect Json) → (Response k → Task Json A) → Task Json A

abbrev pub perform : {Json : Type 0} (k : Effect Json) → Task Json (Response k)
perform k = step k (λ r. done (ok r))

module _ {Json A B : Type 0} where
  -- `?`: an error ends the computation.
  infixl 10 ◌>>=◌
  abbrev pub ◌>>=◌ : Task Json A → (A → Task Json B) → Task Json B
  done (ok a) >>= f = f a
  done (err e) >>= f = done (err e)
  step k next >>= f = step k (λ r. next r >>= f)

abbrev pub Event : Type 0 → Type 0
Event Json = (k : Effect Json) × Response k

-- The task has the effects of the trace, is given their responses and ends in the result.
abbrev pub Runs : {Json A : Type 0} → Task Json A → List (Event Json) → Result A AppError → Type 0
Runs (done a) t r = (t ≡ []) × (r ≡ a)
Runs {Json} (step k next) t r =
    (a : Response k) × (rest : List (Event Json)) × (t ≡ (k, a) ∷ rest) × Runs (next a) rest r

abbrev pub Exchange : Type 0 → Type 0
Exchange Json = HttpRequest Json × Answer

-- The requests that a trace sends, with their answers.
abbrev pub exchanges : {Json : Type 0} → List (Event Json) → List (Exchange Json)
exchanges [] = []
exchanges ((send_request q, a) ∷ t) = (q, a) ∷ exchanges t
exchanges (_ ∷ t) = exchanges t
