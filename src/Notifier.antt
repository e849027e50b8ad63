-- ===== src/Notifier.antt =====
-- notifier/mod.rs: the messenger that alerts the user.
pub mod Laws
use Prim.Native.Char.{code}
use cryptosweep.Base.{
  String, ◌<>◌, ℕ, ◌+◌, ◌-◌, ◌*◌, ◌^◌, Bool, true, false, ◌&&◌, leb, ltb, if◌then◌else◌, ◌==◌,
  nat_eq,
}
use cryptosweep.Types.Error.{AppError, config, notification, Result, ok, err, map_err}

-- `i64`: `negsuc n` is -(n + 1).
pub data ℤ : Type 0 where
  pos : ℕ → ℤ
  negsuc : ℕ → ℤ

-- `std::num::ParseIntError`
pub data ParseIntError : Type 0 where
  empty invalid_digit pos_overflow neg_overflow : ParseIntError

unfoldable pub parse_message : ParseIntError → String
parse_message empty = "cannot parse integer from empty string"
parse_message invalid_digit = "invalid digit found in string"
parse_message pos_overflow = "number too large to fit in target type"
parse_message neg_overflow = "number too small to fit in target type"

abbrev pub is_digit : ℕ → Bool
is_digit c = leb b'0' c && leb c b'9'

-- The loop over the digits, on the magnitude; `limit` is the largest one.
unfoldable pub parse_digits : ℕ → ParseIntError → String → ℕ → Result ℕ ParseIntError
parse_digits limit overflow String.[] acc = ok acc
parse_digits limit overflow (String.◌∷◌ c s) acc =
    let next = acc * 10 + (code c - b'0') in
    let rest = parse_digits limit overflow s next in
    if is_digit (code c) then if ltb limit next then err overflow else rest else err invalid_digit

-- -n, and n.
abbrev pub negative : ℕ → ℤ
negative n = elim n [ ℕ.zero ↦ pos 0 | ℕ.suc m ↦ negsuc m ]

abbrev as_negative : Result ℕ ParseIntError → Result ℤ ParseIntError
as_negative (ok n) = ok (negative n)
as_negative (err e) = err e

abbrev as_positive : Result ℕ ParseIntError → Result ℤ ParseIntError
as_positive (ok n) = ok (pos n)
as_positive (err e) = err e

abbrev parse_positive : String → Result ℤ ParseIntError
parse_positive s = as_positive (parse_digits (2 ^ 63 - 1) pos_overflow s 0)

abbrev parse_negative : String → Result ℤ ParseIntError
parse_negative s = as_negative (parse_digits (2 ^ 63) neg_overflow s 0)

-- `str::parse::<i64>`: an optional sign, and digits. A sign alone is no number.
unfoldable pub parse_i64 : String → Result ℤ ParseIntError
unfolding parse_digits
parse_i64 String.[] = err empty
parse_i64 (String.◌∷◌ c String.[]) =
    if code c == b'+'
    then err invalid_digit
    else if code c == b'-'
    then err invalid_digit
    else parse_positive (String.◌∷◌ c String.[])
parse_i64 (String.◌∷◌ c (String.◌∷◌ d s)) =
    if code c == b'+'
    then parse_positive (String.◌∷◌ d s)
    else if code c == b'-'
    then parse_negative (String.◌∷◌ d s)
    else parse_positive (String.◌∷◌ c (String.◌∷◌ d s))

-- The bot is the library's; it is its token.
pub record TelegramNotifier : Type 0 where
  pub bot_token : String
  pub chat_id : ℤ

unfoldable pub new : String → String → Result TelegramNotifier AppError
unfolding parse_i64 parse_message
new bot_token chat_id = elim (parse_i64 chat_id) [
  | err e ↦ err (config ("telegram_chat_id must be a valid i64: " <> parse_message e))
  | ok id ↦ ok (record { bot_token = bot_token; chat_id = id })
]

-- What becomes of the library's answer to a message.
unfoldable pub notify : Result (Unit {0}) String → Result (Unit {0}) AppError
notify answer = map_err (λ e. notification ("Telegram send failed: " <> e)) answer
