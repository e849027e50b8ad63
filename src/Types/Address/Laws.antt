-- ===== src/Types/Address/Laws.antt =====
-- types.rs: which texts are deposit addresses.
use Prim.Native.String.{len}
use cryptosweep.Base.{◌≡◌, String, ◌<>◌, true, nat_eq}
use cryptosweep.Types.Address.{all_hexdigits}

-- `0x` and forty hexadecimal digits.
abbrev pub IsEthAddress : String → Type 0
IsEthAddress value =
    (digits : String) × (value ≡ "0x" <> digits) × (len digits ≡ 40) × (all_hexdigits digits ≡ true)
