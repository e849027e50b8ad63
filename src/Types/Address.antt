-- ===== src/Types/Address.antt =====
-- types.rs: deposit addresses and their validation.
pub mod Laws
use Prim.Native.Char.{code}
use Prim.Native.String.{len}
use text.Mathlib.Text.{starts_with}
use cryptosweep.Base.{String, ℕ, Bool, true, ◌&&◌, ◌||◌, leb, ◌==◌, nat_eq}

pub record DepositAddressConfig : Type 0 where
  pub address : String
  pub payment_method_id : String

-- `char::is_ascii_hexdigit`, on the code point.
unfoldable pub is_ascii_hexdigit : ℕ → Bool
is_ascii_hexdigit c =
    (leb b'0' c && leb c b'9') || (leb b'a' c && leb c b'f') || (leb b'A' c && leb c b'F')

unfoldable pub all_hexdigits : String → Bool
unfolding is_ascii_hexdigit
all_hexdigits String.[] = true
all_hexdigits (String.◌∷◌ c s) = is_ascii_hexdigit (code c) && all_hexdigits s

-- `value[2..]`, where the text begins with two ASCII characters.
unfoldable pub after_two : String → String
after_two String.[] = String.[]
after_two (String.◌∷◌ a String.[]) = String.[]
after_two (String.◌∷◌ a (String.◌∷◌ b s)) = s

-- `true` for `Ok(())`
unfoldable pub validate_eth_address : String → Bool
unfolding all_hexdigits after_two
validate_eth_address value =
    len value == 42 && starts_with value "0x" && all_hexdigits (after_two value)
