-- ===== src/Worker/Job.antt =====
-- The calls that a job of the worker makes to its services, one at a time. A job waits at each call,
-- so jobs that run side by side interleave at their calls.
use cryptosweep.Base.{◌≡◌, String, ℕ, List, [], ◌∷◌}
use cryptosweep.Types.Error.{AppError, Result}
use cryptosweep.Types.State.{SellResult, WithdrawalResult}

-- `CoinbaseClient`, `tokio::time::sleep` and `Notifier`.
pub data Call (D : Type 0) : Type 0 where
  sell_usdc : D → Call D
  sleep : ℕ → Call D
  withdraw_usd : D → String → Call D
  notify : String → Call D

abbrev pub Response : {D : Type 0} → Call D → Type 0
Response {D} (sell_usdc amount) = Result (SellResult D) AppError
Response (sleep secs) = Unit
Response {D} (withdraw_usd amount payment_method_id) = Result (WithdrawalResult D) AppError
Response (notify message) = Result (Unit {0}) AppError

pub data Job (D : Type 0) (A : Type 0) : Type 0 where
  done : A → Job D A
  call : (k : Call D) → (Response k → Job D A) → Job D A

module _ {D : Type 0} where
  abbrev pub perform : (k : Call D) → Job D (Response k)
  perform k = call k (λ r. done r)

module _ {D A B : Type 0} where
  infixl 10 ◌>>=◌ ◌>>◌
  abbrev pub ◌>>=◌ : Job D A → (A → Job D B) → Job D B
  done a >>= f = f a
  call k next >>= f = call k (λ r. next r >>= f)

  abbrev pub ◌>>◌ : Job D A → Job D B → Job D B
  m >> n = m >>= λ _. n

-- A call with its response.
abbrev pub Event : Type 0 → Type 0
Event D = (k : Call D) × Response k

-- The job makes the calls of the trace, is given their responses and returns the value.
abbrev pub Runs : {D A : Type 0} → Job D A → List (Event D) → A → Type 0
Runs (done a) t o = (t ≡ []) × (o ≡ a)
Runs {D} (call k next) t o =
    (r : Response k) × (rest : List (Event D)) × (t ≡ (k, r) ∷ rest) × Runs (next r) rest o
