-- ===== src/Tests/Texts.antt =====
-- notifier/mod.rs and types.rs on concrete texts: chat ids and addresses.
use cryptosweep.Base.{arith, ◌≡◌, refl, string_eq, nat_eq}
use cryptosweep.Types.Chain.{chain_eq}
use cryptosweep.Types.Error.{ok, err}
use cryptosweep.Notifier.{ℤ, negsuc, pos_overflow, parse_i64, TelegramNotifier}
use cryptosweep.Notifier
use cryptosweep.Notifier.Laws.{IsMade, show_i64, new-IsI64}

new-IsI64_example :
    (Notifier.new "token" (show_i64 (negsuc 1001234567889))
      ≡ ok (record { bot_token = "token"; chat_id = negsuc 1001234567889 }))
    × IsMade "token" "channel" (Notifier.new "token" "channel")
new-IsI64_example = new-IsI64 "token" "channel" (negsuc 1001234567889) (omega arith)

group_id : parse_i64 "-1001234567890" ≡ ok (negsuc 1001234567889)
unfolding parse_i64 nat_eq
group_id = refl

out_of_range : parse_i64 "9223372036854775808" ≡ err pos_overflow
unfolding parse_i64 nat_eq
out_of_range = refl
