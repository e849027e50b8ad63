-- ===== src/Notifier/Laws.antt =====
-- notifier/mod.rs: the chat ids that are accepted are the 64-bit integers.
use Prim.Native.Nat.{◌/◌, ◌%◌}
use Prim.Native.Char.{Char, code}
use native.Mathlib.Numerals.{add-one}
use text.Mathlib.TextLemmas.{nil-append, cons-append, append_assoc, append-nil}
use cryptosweep.Base.{
  ◌≡◌, refl, sym, ap, ◌∙◌, String, ◌<>◌, ℕ, zero, suc, Bool, subst, ◌+◌, ◌-◌, ◌*◌, ◌^◌, ◌<◌, ◌≤◌,
  true, false, ltb, Bool-cases, inl, inr, arith, digit, digits, show_nat, ◌==◌, nat_eq,
  if◌then◌else◌,
}
use cryptosweep.Types.Error.{AppError, config, Result, ok, err, Result-cases}
use cryptosweep.Notifier.{
  ℤ, pos, negsuc, ParseIntError, is_digit, pos_overflow, neg_overflow, negative, as_negative,
  as_positive, parse_positive, parse_negative, parse_digits, parse_i64, TelegramNotifier, new,
  parse_message,
}

-- `i64::MIN ..= i64::MAX`
abbrev pub IsI64 : ℤ → Type 0
IsI64 (pos n) = n < 2 ^ 63
IsI64 (negsuc n) = n < 2 ^ 63

-- The `Display` of an `i64`.
unfoldable pub show_i64 : ℤ → String
show_i64 (pos n) = show_nat n
show_i64 (negsuc n) = String.◌∷◌ "-" (show_nat (n + 1))

parse_digits-le :
    (limit : ℕ) (o : ParseIntError) (s : String) (acc n : ℕ)
    → acc ≤ limit
    → parse_digits limit o s acc ≡ ok n
    → n ≤ limit
unfolding parse_digits
parse_digits-le limit o String.[] acc n small h = ground arith
parse_digits-le limit o (String.◌∷◌ c s) acc n small h = elim (Bool-cases (is_digit (code c))) [
  | inr bad ↦ ground arith
  | inl good ↦ elim (Bool-cases (ltb limit (acc * 10 + (code c - b'0')))) [
    | inl over ↦ ground arith
    | inr under ↦
        parse_digits-le limit o s (acc * 10 + (code c - b'0')) n (ground arith) (ground arith)
  ]
]

-- A digit is one character, and its code tells its value.
IsDigitText : ℕ → String → Type 0
IsDigitText d s = (c : Char) × (s ≡ String.◌∷◌ c "") × (code c ≡ 48 + d)

digit-IsDigitText : (d : ℕ) → d < 10 → IsDigitText d (digit d)
unfolding digit IsDigitText
digit-IsDigitText zero h = ("0", refl, refl)
digit-IsDigitText (suc zero) h = ("1", refl, refl)
digit-IsDigitText (suc (suc zero)) h = ("2", refl, refl)
digit-IsDigitText (suc (suc (suc zero))) h = ("3", refl, refl)
digit-IsDigitText (suc (suc (suc (suc zero)))) h = ("4", refl, refl)
digit-IsDigitText (suc (suc (suc (suc (suc zero))))) h = ("5", refl, refl)
digit-IsDigitText (suc (suc (suc (suc (suc (suc zero)))))) h = ("6", refl, refl)
digit-IsDigitText (suc (suc (suc (suc (suc (suc (suc zero))))))) h = ("7", refl, refl)
digit-IsDigitText (suc (suc (suc (suc (suc (suc (suc (suc zero)))))))) h = ("8", refl, refl)
digit-IsDigitText (suc (suc (suc (suc (suc (suc (suc (suc (suc zero))))))))) h = ("9", refl, refl)
digit-IsDigitText (suc (suc (suc (suc (suc (suc (suc (suc (suc (suc n)))))))))) h =
    absurd (omega arith)

module _ (limit : ℕ) (o : ParseIntError) where
  parse-digit :
      (d acc : ℕ) (t : String)
      → d < 10
      → acc * 10 + d ≤ limit
      → parse_digits limit o (digit d <> t) acc ≡ parse_digits limit o t (acc * 10 + d)
  unfolding parse_digits IsDigitText
  parse-digit d acc t small fits =
      let (c, shape, value) = digit-IsDigitText d small in
      let joined : digit d <> t ≡ String.◌∷◌ c t =
        ap (λ x. x <> t) shape ∙ cons-append c "" t ∙ ap (String.◌∷◌ c) (nil-append t) in
      ap (λ x. parse_digits limit o x acc) joined ∙ ground (arith, value)

  parse-digits :
      (f n : ℕ) (t : String)
      → n < f
      → n ≤ limit
      → parse_digits limit o (digits f n <> t) 0 ≡ parse_digits limit o t n
  unfolding digits
  parse-digits zero n t h fits = absurd (omega arith)
  parse-digits (suc f) n t h fits = elim (Bool-cases (ltb n 10)) [
    | inl small ↦
        let below : n < 10 = ground arith in
        rw small (
          parse-digit (n % 10) 0 t (omega arith) (omega arith)
          ∙ ap (parse_digits limit o t) (omega arith))
    | inr large ↦
        let above : 10 ≤ n = ground arith in
        rw large (
          ap (λ x. parse_digits limit o x 0) (append_assoc (digits f (n / 10)) (digit (n % 10)) t)
          ∙ parse-digits f (n / 10) (digit (n % 10) <> t) (omega arith) (omega arith)
          ∙ parse-digit (n % 10) (n / 10) t (omega arith) (omega arith)
          ∙ ap (parse_digits limit o t) (omega arith))
  ]

  parse-show_nat : (n : ℕ) → n ≤ limit → parse_digits limit o (show_nat n) 0 ≡ ok n
  unfolding parse_digits show_nat
  parse-show_nat n fits =
      ap (λ x. parse_digits limit o x 0) (sym (append-nil (digits (suc n) n)))
      ∙ parse-digits (suc n) n "" (omega arith) fits

-- The text of a number begins with a digit.
StartsWithDigit : String → Type 0
StartsWithDigit s =
    (c : Char) × (rest : String) × (s ≡ String.◌∷◌ c rest) × (is_digit (code c) ≡ true)

digits-StartsWithDigit : (f n : ℕ) → n < f → StartsWithDigit (digits f n)
unfolding digits StartsWithDigit IsDigitText
digits-StartsWithDigit zero n h = absurd (omega arith)
digits-StartsWithDigit (suc f) n h = elim (Bool-cases (ltb n 10)) [
  | inl small ↦
      let below : n < 10 = ground arith in
      let (c, shape, value) = digit-IsDigitText (n % 10) (omega arith) in
      rw small (c, "", shape, ground arith)
  | inr large ↦
      let above : 10 ≤ n = ground arith in
      let (c, rest, shape, good) = digits-StartsWithDigit f (n / 10) (omega arith) in
      rw large (
        c,
        rest <> digit (n % 10),
        ap (λ x. x <> digit (n % 10)) shape ∙ cons-append c rest (digit (n % 10)),
        good,
      )
]

show_nat-StartsWithDigit : (n : ℕ) → StartsWithDigit (show_nat n)
unfolding show_nat
show_nat-StartsWithDigit n = digits-StartsWithDigit (suc n) n (omega arith)

parse-unsigned :
    (c : Char) (s : String)
    → is_digit (code c) ≡ true
    → parse_i64 (String.◌∷◌ c s) ≡ parse_positive (String.◌∷◌ c s)
unfolding parse_i64 nat_eq
parse-unsigned c String.[] h = ground arith
parse-unsigned c (String.◌∷◌ d s) h = ground arith

parse-signed :
    (c : Char) (s : String)
    → parse_i64 (String.◌∷◌ "-" (String.◌∷◌ c s)) ≡ parse_negative (String.◌∷◌ c s)
unfolding parse_i64 nat_eq
parse-signed c s = refl

-- Every 64-bit integer is read back from its text.
parse_i64-show_i64 : (z : ℤ) → IsI64 z → parse_i64 (show_i64 z) ≡ ok z
unfolding show_i64 StartsWithDigit
parse_i64-show_i64 (pos n) h =
    let (c, rest, shape, good) = show_nat-StartsWithDigit n in
    ap parse_i64 shape
    ∙ parse-unsigned c rest good
    ∙ ap parse_positive (sym shape)
    ∙ ap as_positive (parse-show_nat (2 ^ 63 - 1) pos_overflow n (omega arith))
parse_i64-show_i64 (negsuc n) h =
    let (c, rest, shape, good) = show_nat-StartsWithDigit (n + 1) in
    ap (λ s. parse_i64 (String.◌∷◌ "-" s)) shape
    ∙ parse-signed c rest
    ∙ ap parse_negative (sym shape)
    ∙ ap as_negative (parse-show_nat (2 ^ 63) neg_overflow (n + 1) (omega arith))
    ∙ ap (λ m. ok (negative m)) (add-one n)

-- The number that is read, if one is, is a 64-bit integer.
abbrev ReadsI64 : Result ℤ ParseIntError → Type 0
ReadsI64 (ok z) = IsI64 z
ReadsI64 (err e) = Unit

if-ReadsI64 :
    (b : Bool) (x y : Result ℤ ParseIntError)
    → ReadsI64 x
    → ReadsI64 y
    → ReadsI64 (if b then x else y)
if-ReadsI64 true x y hx hy = hx
if-ReadsI64 false x y hx hy = hy

positive-ReadsI64 :
    (x : Result ℕ ParseIntError) → ((n : ℕ) → x ≡ ok n → n ≤ 2 ^ 63 - 1) → ReadsI64 (as_positive x)
positive-ReadsI64 (err e) h = tt
positive-ReadsI64 (ok n) h = omega (arith, h n refl)

negative-ReadsI64 :
    (x : Result ℕ ParseIntError) → ((n : ℕ) → x ≡ ok n → n ≤ 2 ^ 63) → ReadsI64 (as_negative x)
negative-ReadsI64 (err e) h = tt
negative-ReadsI64 (ok zero) h = omega arith
negative-ReadsI64 (ok (suc n)) h = omega (arith, h (suc n) refl)

parse_positive-ReadsI64 : (s : String) → ReadsI64 (parse_positive s)
parse_positive-ReadsI64 s =
    positive-ReadsI64 (parse_digits (2 ^ 63 - 1) pos_overflow s 0)
      (λ n. parse_digits-le (2 ^ 63 - 1) pos_overflow s 0 n (omega arith))

parse_negative-ReadsI64 : (s : String) → ReadsI64 (parse_negative s)
parse_negative-ReadsI64 s =
    negative-ReadsI64 (parse_digits (2 ^ 63) neg_overflow s 0)
      (λ n. parse_digits-le (2 ^ 63) neg_overflow s 0 n (omega arith))

parse_i64-ReadsI64 : (s : String) → ReadsI64 (parse_i64 s)
unfolding parse_i64
parse_i64-ReadsI64 String.[] = tt
parse_i64-ReadsI64 (String.◌∷◌ c String.[]) =
    if-ReadsI64 (code c == b'+') _ _ tt
      (if-ReadsI64 (code c == b'-') _ _ tt (parse_positive-ReadsI64 (String.◌∷◌ c String.[])))
parse_i64-ReadsI64 (String.◌∷◌ c (String.◌∷◌ d s)) =
    if-ReadsI64 (code c == b'+') _ _ (parse_positive-ReadsI64 (String.◌∷◌ d s)) (
      if-ReadsI64 (code c == b'-') _ _ (parse_negative-ReadsI64 (String.◌∷◌ d s))
        (parse_positive-ReadsI64 (String.◌∷◌ c (String.◌∷◌ d s))))

-- What `new` makes of a text: a notifier with the 64-bit integer that the text is read as, or a
-- configuration error that says why it is read as none.
abbrev pub IsMade : String → String → Result TelegramNotifier AppError → Type 0
IsMade token text (ok n) = IsI64 n.chat_id × (n.bot_token ≡ token) × (parse_i64 text ≡ ok n.chat_id)
IsMade token text (err e) =
    (cause : ParseIntError) × (parse_i64 text ≡ err cause)
    × (e ≡ config ("telegram_chat_id must be a valid i64: " <> parse_message cause))

new-IsMade : (token text : String) → IsMade token text (new token text)
unfolding new
new-IsMade token text = elim (Result-cases (parse_i64 text)) [
  | inr (e, bad) ↦ rw (bad, new) (e, bad, refl)
  | inl (z, good) ↦ rw (good, new) (subst ReadsI64 good (parse_i64-ReadsI64 text), refl, good)
]

-- The decimal text of every 64-bit integer is accepted as a chat id and read as this integer; and
-- of any text, `new` makes a notifier whose chat id is the 64-bit integer that the text is read as,
-- or a configuration error with the reason.
pub new-IsI64 :
    (token text : String) (z : ℤ)
    → IsI64 z
    → (new token (show_i64 z) ≡ ok (record { bot_token = token; chat_id = z }))
      × IsMade token text (new token text)
unfolding new
new-IsI64 token text z h = (rw (parse_i64-show_i64 z h, new) refl, new-IsMade token text)
