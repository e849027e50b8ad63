-- ===== src/Tests/Exchange.antt =====
-- coinbase/ on concrete answers: a sale, a withdrawal, and the job that makes both.
use cryptosweep.Base.{
  ◌≡◌, refl, String, ◌<>◌, ℕ, show_nat, ◌*◌, true, Option, none, some, List, [], ◌∷◌, string_eq,
  nat_eq,
}
use cryptosweep.Base.Text.{before, remove_char}
use cryptosweep.Types.Decimal.{DecimalLib}
use cryptosweep.Types.Error.{ok}
use cryptosweep.Types.State.{SellResult, WithdrawalResult}
use cryptosweep.Coinbase.Models.{ConvertAmount, ConvertTrade, WithdrawalTransfer, CoinbaseAccount}
use cryptosweep.Coinbase.Task.{
  HttpMethod, get, post, HttpRequest, Answer, current_timestamp, new_v4, send_request, utc_now,
  Event, Runs, exchanges,
}
use cryptosweep.Coinbase.Auth.{build_jwt, token_of, parse_pem_key, unescape_newlines}
use cryptosweep.Coinbase.Client.{
  LiveCoinbaseClient, ApiSerde, coinbase_api_base, check_answer, deserialize, find_by_code, send,
  get_as, post_as, find_account,
}
use cryptosweep.Coinbase.Operations.{
  quote_path, commit_path, withdrawal_path, check_transfer, amounts_of, trade_id_of, sell_usdc,
  withdraw_usd,
}
use cryptosweep.Coinbase.Reads.{BodyOf}
use cryptosweep.Coinbase.Account.{FoundRun, find_account-FoundRun}
use cryptosweep.Coinbase.Key.{escape_newlines}
use cryptosweep.Coinbase.Sale.{SaleRun, sell_usdc-SaleRun}
use cryptosweep.Coinbase.Withdrawal.{WithdrawalRun, withdraw_usd-WithdrawalRun}
use cryptosweep.Coinbase.Signed.{IsAuthorized, send-IsAuthorized}
use cryptosweep.Tests.Encoding.{jwt, reader}
use cryptosweep.Tests.Fixtures.{micro, now}

-- Every text that the exchange sends is read as five dollars less a cent.
abbrev pub prices : DecimalLib
prices = record micro { from_str = λ s. some 4990000 }

abbrev paid : ConvertAmount
paid = record { value = some "4.99"; currency = some "USD" }

abbrev trade : String → ConvertTrade
trade id = record {
  id = some id;
  status = none;
  user_entered_amount = some paid;
  total = some paid;
  subtotal = none;
  total_fee = none;
  source_currency = none;
  target_currency = none;
  exchange_rate = none;
}

abbrev accepted : String → WithdrawalTransfer
accepted id = record {
  id = id;
  amount = none;
  committed = some true;
  status = "";
  cancellation_reason = none;
}

abbrev account : String → CoinbaseAccount
account currency = record {
  id = currency;
  name = "wallet";
  currency = record { code = currency };
  balance = record { amount = "0"; currency = currency };
}

-- Bodies are texts, and a response carries its text as the id of what it describes.
abbrev pub api : ApiSerde String
api = record {
  show_status = λ n. "OK";
  quote_request = λ q. ok q.amount;
  commit_request = λ q. ok q.from_account;
  withdrawal_request = λ q. ok q.amount;
  quote_response = λ s. ok (record { trade = some (trade s) });
  trade_response = λ s. ok (record { trade = some (trade s) });
  transfer_response = λ s. ok (record { transfer = accepted s });
  account_response = λ s. ok (record { item = account s });
  account_list = λ s. ok (record { items = account "BTC" ∷ account "USD" ∷ [] });
}

abbrev pub client : LiveCoinbaseClient String
client = record {
  api_key = "key";
  signing_key = "secret";
  usdc_account_id = none;
  usd_account_id = none;
}

-- A request at the second 100 with the identifier `a-b`, and the answer to it.
abbrev request : HttpMethod → String → Option String → HttpRequest String
request method path body = record {
  method = method;
  url = coinbase_api_base <> path;
  authorization =
      "Bearer "
      <> token_of jwt "key" "secret" method (before b'?' path) 100 (remove_char b'-' "a-b");
  body = body;
}

abbrev answer : String → Answer
answer text = ok (record { status = 200; text = ok text })

abbrev asked :
    HttpMethod → String → Option String → String → List (Event String) → List (Event String)
asked method path body text rest =
    (current_timestamp, 100)
    ∷ (new_v4, "a-b")
    ∷ (send_request (request method path body), answer text)
    ∷ rest

abbrev pub sale_trace : List (Event String)
sale_trace =
    asked post quote_path (some "5000000") "t1"
      (asked post (commit_path "t1") (some "USDC") "done" ((utc_now, now) ∷ []))

abbrev pub sold_here : SellResult ℕ
sold_here = record {
  order_id = "t1";
  usdc_sold = 4990000;
  usd_received = 4990000;
  executed_at = now;
}

pub sale-Runs : Runs (sell_usdc prices jwt api client (5 * 1000000)) sale_trace (ok sold_here)
unfolding sell_usdc post_as send build_jwt check_answer deserialize amounts_of trade_id_of show_nat
sale-Runs = (
  100,
  _,
  refl,
  (
    "a-b",
    _,
    refl,
    (
      answer "t1",
      _,
      refl,
      (100, _, refl, ("a-b", _, refl, (answer "done", _, refl, (now, _, refl, (refl, refl))))),
    ),
  ),
)

sell_usdc-SaleRun_example :
    SaleRun prices jwt api client (5 * 1000000) (exchanges sale_trace) (ok sold_here)
sell_usdc-SaleRun_example =
    sell_usdc-SaleRun prices jwt api client (5 * 1000000) sale_trace (ok sold_here) sale-Runs

abbrev listed : List (Event String)
listed = asked get "/v2/accounts?limit=300" none "list" []

finds_dollars : Runs (find_account api jwt client "USD") listed (ok (account "USD"))
unfolding find_account get_as send build_jwt check_answer deserialize find_by_code string_eq
finds_dollars = (100, _, refl, ("a-b", _, refl, (answer "list", _, refl, (refl, refl))))

find_account-FoundRun_example :
    FoundRun api jwt client "USD" (exchanges listed) (ok (account "USD"))
find_account-FoundRun_example =
    find_account-FoundRun api jwt client "USD" listed (ok (account "USD")) finds_dollars

abbrev pub withdrawal_trace : List (Event String)
withdrawal_trace =
    asked get "/v2/accounts?limit=300" none "list"
      (asked post (withdrawal_path "USD") (some "4990000") "w1" ((utc_now, now) ∷ []))

abbrev pub withdrawn_here : WithdrawalResult ℕ
withdrawn_here = record { withdrawal_transfer_id = "w1"; usd_amount = 4990000; initiated_at = now }

pub withdrawal-Runs :
    Runs (withdraw_usd prices jwt api client 4990000 "bank") withdrawal_trace (ok withdrawn_here)
unfolding withdraw_usd find_account get_as post_as send build_jwt check_answer deserialize
    find_by_code check_transfer string_eq show_nat
withdrawal-Runs = (
  100,
  _,
  refl,
  (
    "a-b",
    _,
    refl,
    (
      answer "list",
      _,
      refl,
      (100, _, refl, ("a-b", _, refl, (answer "w1", _, refl, (now, _, refl, (refl, refl))))),
    ),
  ),
)

withdraw_usd-WithdrawalRun_example :
    WithdrawalRun prices jwt api client 4990000 "bank"
      (exchanges withdrawal_trace)
      (ok withdrawn_here)
withdraw_usd-WithdrawalRun_example =
    withdraw_usd-WithdrawalRun prices jwt api client 4990000 "bank" withdrawal_trace
      (ok withdrawn_here) withdrawal-Runs

sends : Runs (send api jwt client get "/v2/accounts?limit=300" none) listed (ok "list")
unfolding send build_jwt check_answer
sends = (100, _, refl, ("a-b", _, refl, (answer "list", _, refl, (refl, refl))))

send-IsAuthorized_example :
    (q : HttpRequest String) × (a : Answer) × (exchanges listed ≡ (q, a) ∷ [])
    × (q.method ≡ get)
    × (q.url ≡ "https://api.coinbase.com" <> "/v2/accounts?limit=300")
    × (q.body ≡ none)
    × IsAuthorized jwt reader api client get "/v2/accounts?limit=300" q
    × BodyOf a (ok "list")
send-IsAuthorized_example =
    send-IsAuthorized jwt reader api client get "/v2/accounts?limit=300" none listed (ok "list")
      sends

escaped_pem : parse_pem_key jwt (escape_newlines "A\nB") ≡ ok "A\nB"
unfolding parse_pem_key unescape_newlines escape_newlines nat_eq
escaped_pem = refl
