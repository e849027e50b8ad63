-- ===== src/Types/Error.antt =====
-- types.rs: the error type, and results that carry it.
use cryptosweep.Base.{◌≡◌, refl, ◌⊎◌, inl, inr, String, ◌<>◌}

-- The errors of `std::io`, as far as the program tells them apart.
pub data IoError : Type 0 where
  not_found : String → IoError
  other : String → IoError

-- A wrapped error of a library is the text that it displays.
pub data AppError : Type 0 where
  explorer : String → AppError
  coinbase : String → AppError
  notification : String → AppError
  config : String → AppError
  http : String → AppError
  json : String → AppError
  io : IoError → AppError

unfoldable pub io_message : IoError → String
io_message (not_found m) = m
io_message (other m) = m

-- The derived `Display`.
unfoldable pub message : AppError → String
unfolding io_message
message (explorer m) = "Block explorer error: " <> m
message (coinbase m) = "Coinbase API error: " <> m
message (notification m) = "Notification delivery failed: " <> m
message (config m) = "Configuration error: " <> m
message (http m) = m
message (json m) = m
message (io e) = io_message e

pub data Result {ℓ κ} (A : Type ℓ) (E : Type κ) : Type (ℓ ⊔ κ) where
  ok : A → Result A E
  err : E → Result A E

infixl 10 ◌>>=◌ ◌>>◌
abbrev pub ◌>>=◌ {ℓ κ} :
    {A : Type ℓ} {B : Type ℓ} {E : Type κ} → Result A E → (A → Result B E) → Result B E
ok a >>= f = f a
err e >>= f = err e

abbrev pub ◌>>◌ {ℓ κ} :
    {A : Type ℓ} {B : Type ℓ} {E : Type κ} → Result A E → Result B E → Result B E
m >> k = m >>= λ _. k

-- `Result::map_err`
abbrev pub map_err {ℓ κ} : {A : Type ℓ} {E F : Type κ} → (E → F) → Result A E → Result A F
map_err f (ok a) = ok a
map_err f (err e) = err (f e)

-- To split on a computed result and keep the equation.
pub Result-cases {ℓ κ} :
    {A : Type ℓ} {E : Type κ} (r : Result A E) → ((a : A) × (r ≡ ok a)) ⊎ ((e : E) × (r ≡ err e))
Result-cases (ok a) = inl (a, refl)
Result-cases (err e) = inr (e, refl)
