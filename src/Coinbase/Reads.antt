-- ===== src/Coinbase/Reads.antt =====
-- coinbase/mod.rs: what an answer of the exchange says, independently of the code that reads it.
use cryptosweep.Base.{◌≡◌, refl, ◌⊎◌, inl, inr, String, ℕ, ◌≤◌, ◌<◌, true, false, arith, Bool-cases}
use cryptosweep.Types.Error.{AppError, http, Result, ok, err, map_err}
use cryptosweep.Coinbase.Task.{HttpMethod, Reply, Answer}
use cryptosweep.Coinbase.Client.{ApiSerde, check_answer, deserialize, text_or_default, is_success}

abbrev pub IsErr {ℓ} : {A : Type ℓ} → Result A AppError → Type ℓ
IsErr r = (e : AppError) × (r ≡ err e)

-- The text is a reply's body, or empty where the body cannot be read.
abbrev pub IsBody : Result String String → String → Type 0
IsBody text s = (text ≡ ok s) ⊎ ((m : String) × (text ≡ err m) × (s ≡ ""))

abbrev pub IsOutside : ℕ → Type 0
IsOutside status = (status < 200) ⊎ (299 < status)

-- The body of an answer: of one with a status from 200 to 299, and an error of any other.
pub data BodyOf (a : Answer) (r : Result String AppError) : Type 0 where
  accepted :
      (reply : Reply) (s : String)
      → a ≡ ok reply
      → 200 ≤ reply.status
      → reply.status ≤ 299
      → IsBody reply.text s
      → r ≡ ok s
      → BodyOf a r
  turned_down : (reply : Reply) → a ≡ ok reply → IsOutside reply.status → IsErr r → BodyOf a r
  unanswered : (e : String) → a ≡ err e → r ≡ err (http e) → BodyOf a r

abbrev pub Parsed :
    {T : Type 0} → (String → Result T String) → Result String AppError → Result T AppError → Type 0
Parsed from_str (err e) x = x ≡ err e
Parsed {T} from_str (ok s) x =
    ((v : T) × (from_str s ≡ ok v) × (x ≡ ok v)) ⊎ ((m : String) × (from_str s ≡ err m) × IsErr x)

-- What the answer's body is read as, or the error of an answer that has no such body.
abbrev pub Answered :
    {T : Type 0} → (String → Result T String) → Answer → Result T AppError → Type 0
Answered from_str a x = (y : Result String AppError) × BodyOf a y × Parsed from_str y x

text_or_default-IsBody : (text : Result String String) → IsBody text (text_or_default text)
text_or_default-IsBody (ok s) = inl refl
text_or_default-IsBody (err m) = inr (m, refl, refl)

is_success-bounds : (n : ℕ) → is_success n ≡ true → (200 ≤ n) × (n ≤ 299)
is_success-bounds n h = ground arith

fails-IsOutside : (n : ℕ) → is_success n ≡ false → IsOutside n
fails-IsOutside n h = ground arith

module _ {Json : Type 0} (S : ApiSerde Json) where
  pub check_answer-BodyOf :
      (method : HttpMethod) (path : String) (a : Answer) → BodyOf a (check_answer S method path a)
  unfolding check_answer
  check_answer-BodyOf method path (err e) = unanswered e refl refl
  check_answer-BodyOf method path (ok reply) = elim (Bool-cases (is_success reply.status)) [
    | inl fine ↦
        let (low, high) = is_success-bounds reply.status fine in
        accepted reply (text_or_default reply.text) refl low high
          (text_or_default-IsBody reply.text) (rw fine refl)
    | inr bad ↦ turned_down reply refl (fails-IsOutside reply.status bad) (rw bad (_, refl))
  ]

  map_err-Parsed :
      {T : Type 0} (from_str : String → Result T String) (f : String → AppError) (s : String)
      (o : Result T String)
      → from_str s ≡ o
      → Parsed from_str (ok s) (map_err f o)
  map_err-Parsed from_str f s (ok v) reads = inl (v, reads, refl)
  map_err-Parsed from_str f s (err m) fails = inr (m, fails, (f m, refl))

  pub deserialize-Parsed :
      {T : Type 0} (from_str : String → Result T String) (method : HttpMethod) (path s : String)
      → Parsed from_str (ok s) (deserialize S from_str method path s)
  unfolding deserialize
  deserialize-Parsed from_str method path s = map_err-Parsed from_str _ s (from_str s) refl
