-- ===== src/Coinbase/Operations.antt =====
-- coinbase/mod.rs: the two operations of the client that move money.
use cryptosweep.Base.{String, ◌<>◌, ℕ, true, ◌==◌, string_eq, Option, none, some, if◌then◌else◌}
use cryptosweep.Types.Decimal.{DecimalLib}
use cryptosweep.Types.Error.{AppError, coinbase, Result, ok, err}
use cryptosweep.Types.State.{SellResult, WithdrawalResult}
use cryptosweep.Coinbase.Models.{
  WithdrawalRequest, ConvertAmount, CancellationReason, WithdrawalTransfer, ConvertQuoteRequest,
  ConvertCommitRequest, ConvertTrade,
}
use cryptosweep.Coinbase.Task.{Task, done, perform, utc_now, ◌>>=◌}
use cryptosweep.Coinbase.Auth.{JwtLib}
use cryptosweep.Coinbase.Client.{
  LiveCoinbaseClient, ApiSerde, ok_or_coinbase, and_then, post_as, find_account,
}

abbrev pub quote_path : String
quote_path = "/api/v3/brokerage/convert/quote"

abbrev pub commit_path : String → String
commit_path trade_id = "/api/v3/brokerage/convert/trade/" <> trade_id

abbrev pub withdrawal_path : String → String
withdrawal_path usd_account_id = "/v2/accounts/" <> usd_account_id <> "/withdrawals"

abbrev pub commit_body : ConvertCommitRequest
commit_body = record { from_account = "USDC"; to_account = "USD" }

-- A transfer without an id was not made, whether or not it carries a reason.
abbrev rejected : Option CancellationReason → Result String AppError
rejected (some reason) = err (coinbase ("Withdrawal rejected: " <> reason.message))
rejected none = err (coinbase "Withdrawal returned no transfer ID")

-- The two tests on the transfer of a response: its id, or the error.
unfoldable pub check_transfer : WithdrawalTransfer → Result String AppError
check_transfer transfer =
    if transfer.id == "" then rejected transfer.cancellation_reason else ok transfer.id

module _ (L : DecimalLib) where
  open L use {Decimal, to_string, from_str}

  abbrev pub quote_body : Decimal → ConvertQuoteRequest
  quote_body amount = record {
    from_account = "USDC";
    to_account = "USD";
    amount = to_string amount;
  }

  abbrev pub withdrawal_body : Decimal → String → WithdrawalRequest
  withdrawal_body amount payment_method_id = record {
    amount = to_string amount;
    currency = "USD";
    payment_method = payment_method_id;
    commit = true;
  }

  abbrev pub decimal_of : Option ConvertAmount → Option Decimal
  decimal_of amount = and_then amount (λ a. and_then a.value from_str)

  -- What the program reads of a committed trade: the dollars received and the coins sold.
  unfoldable pub amounts_of : Option ConvertTrade → Result (Decimal × Decimal) AppError
  amounts_of none = err (coinbase "Convert commit returned no trade object")
  amounts_of (some t) = elim (decimal_of t.total) [
    | none ↦ err (coinbase "Convert commit response missing USD total")
    | some usd_received ↦ elim (decimal_of t.user_entered_amount) [
      | none ↦ err (coinbase "Convert commit response missing USDC sold amount")
      | some usdc_sold ↦ ok (usd_received, usdc_sold)
    ]
  ]

  -- The id of a quoted trade.
  unfoldable pub trade_id_of : Option ConvertTrade → Result String AppError
  trade_id_of none = err (coinbase "Convert quote returned no trade object")
  trade_id_of (some t) = ok_or_coinbase "Convert quote returned no trade ID" t.id

  module _ (J : JwtLib) {Json : Type 0} (S : ApiSerde Json)
      (c : LiveCoinbaseClient J.SigningKey) where
    open S use {
      quote_request, commit_request, withdrawal_request, quote_response, trade_response,
      transfer_response,
    }

    abbrev pub sold_for : String → Decimal × Decimal → ℕ → SellResult Decimal
    sold_for trade_id (usd_received, usdc_sold) executed_at = record {
      order_id = trade_id;
      usdc_sold = usdc_sold;
      usd_received = usd_received;
      executed_at = executed_at;
    }

    unfoldable pub sell_usdc : Decimal → Task Json (SellResult Decimal)
    sell_usdc amount = do
      quote ← post_as S J c (quote_request (quote_body amount)) quote_response quote_path
      trade_id ← done (trade_id_of quote.trade)
      committed ← post_as S J c (commit_request commit_body) trade_response (commit_path trade_id)
      amounts ← done (amounts_of committed.trade)
      now ← perform utc_now
      done (ok (sold_for trade_id amounts now))

    -- The configured account, or the one that the exchange lists.
    abbrev pub usd_account : Option String → Task Json String
    usd_account (some id) = done (ok id)
    usd_account none = do account ← find_account S J c "USD"; done (ok account.id)

    unfoldable pub withdraw_usd : Decimal → String → Task Json (WithdrawalResult Decimal)
    withdraw_usd amount payment_method_id = do
      usd_account_id ← usd_account c.usd_account_id
      resp ←
          post_as S J c (withdrawal_request (withdrawal_body amount payment_method_id))
            transfer_response (withdrawal_path usd_account_id)
      transfer_id ← done (check_transfer resp.transfer)
      now ← perform utc_now
      done (
          ok (record {
            withdrawal_transfer_id = transfer_id;
            usd_amount = amount;
            initiated_at = now;
          }))
