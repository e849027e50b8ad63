-- ===== src/Coinbase/Client.antt =====
-- coinbase/mod.rs: the live client. Serialization and the display of a status are the libraries'.
use cryptosweep.Base.{
  String, ◌<>◌, ℕ, Bool, ◌&&◌, Option, none, some, List, [], ◌∷◌, leb, ◌==◌, string_eq,
  if◌then◌else◌,
}
use cryptosweep.Base.Text.{before}
use cryptosweep.Types.Error.{AppError, coinbase, http, Result, ok, err, map_err}
use cryptosweep.Coinbase.Models.{
  V2ListResponse, V2DataResponse, CoinbaseAccount, WithdrawalRequest, TransferResponse,
  ConvertQuoteRequest, ConvertCommitRequest, ConvertQuoteResponse, ConvertTradeResponse,
}
use cryptosweep.Coinbase.Task.{
  HttpMethod, get, post, method_name, Answer, Task, done, perform, send_request, ◌>>=◌,
}
use cryptosweep.Coinbase.Auth.{JwtLib, build_jwt, parse_pem_key}

abbrev pub coinbase_api_base : String
coinbase_api_base = "https://api.coinbase.com"

pub record LiveCoinbaseClient (SigningKey : Type 0) : Type 0 where
  pub api_key : String
  pub signing_key : SigningKey
  pub usdc_account_id : Option String
  pub usd_account_id : Option String

-- `LiveCoinbaseClient::new`. The HTTP client that it builds holds no state of the program.
unfoldable pub new :
    (J : JwtLib)
    → String
    → String
    → Option String
    → Option String
    → Result (LiveCoinbaseClient J.SigningKey) AppError
new J api_key api_secret usdc_account_id usd_account_id = elim (parse_pem_key J api_secret) [
  | err e ↦ err e
  | ok key ↦ ok (record {
    api_key = api_key;
    signing_key = key;
    usdc_account_id = usdc_account_id;
    usd_account_id = usd_account_id;
  })
]

-- serde_json at the types that the client serializes (to JSON values, or an error's text) and
-- deserializes (from a text).
pub record ApiSerde (Json : Type 0) : Type 0 where
  pub show_status : ℕ → String
  pub quote_request : ConvertQuoteRequest → Result Json String
  pub commit_request : ConvertCommitRequest → Result Json String
  pub withdrawal_request : WithdrawalRequest → Result Json String
  pub quote_response : String → Result ConvertQuoteResponse String
  pub trade_response : String → Result ConvertTradeResponse String
  pub transfer_response : String → Result TransferResponse String
  pub account_response : String → Result (V2DataResponse CoinbaseAccount) String
  pub account_list : String → Result (V2ListResponse CoinbaseAccount) String

-- `ok_or_else`, `and_then` and `unwrap_or`.
abbrev pub ok_or_coinbase : {A : Type 0} → String → Option A → Result A AppError
ok_or_coinbase m none = err (coinbase m)
ok_or_coinbase m (some a) = ok a

abbrev pub and_then : {A B : Type 0} → Option A → (A → Option B) → Option B
and_then none f = none
and_then (some a) f = f a

-- `StatusCode::is_success`
abbrev pub is_success : ℕ → Bool
is_success status = leb 200 status && leb status 299

-- `resp.text().await.unwrap_or_default()`
abbrev pub text_or_default : Result String String → String
text_or_default (ok s) = s
text_or_default (err e) = ""

module _ {Json : Type 0} (S : ApiSerde Json) where
  open S use {
    show_status, quote_request, commit_request, withdrawal_request, quote_response, trade_response,
    transfer_response, account_response, account_list,
  }

  -- The end of `send`: what becomes of an answer.
  unfoldable pub check_answer : HttpMethod → String → Answer → Result String AppError
  check_answer method path (err e) = err (http e)
  check_answer method path (ok reply) =
      if is_success reply.status
      then ok (text_or_default reply.text)
      else err (
          coinbase (
            method_name method
            <> " "
            <> path
            <> " failed — HTTP "
            <> show_status reply.status
            <> ": "
            <> text_or_default reply.text))

  unfoldable pub deserialize :
      {T : Type 0} → (String → Result T String) → HttpMethod → String → String → Result T AppError
  deserialize from_str method path raw_body =
      map_err
        (λ e. coinbase (method_name method <> " " <> path <> " — deserialization failed: " <> e))
        (from_str raw_body)

  -- `CoinbaseAccount` with the currency's code, the first of the list.
  unfoldable pub find_by_code : String → List CoinbaseAccount → Option CoinbaseAccount
  find_by_code currency [] = none
  find_by_code currency (a ∷ rest) =
      if a.currency.code == currency then some a else find_by_code currency rest

  module _ (J : JwtLib) (c : LiveCoinbaseClient J.SigningKey) where
    -- The token names the path without its query; the URL keeps it.
    unfoldable pub send : HttpMethod → String → Option Json → Task Json String
    send method path json_body = do
      jwt ← build_jwt J c.api_key c.signing_key method (before b'?' path)
      answer ← perform (
          send_request (record {
            method = method;
            url = coinbase_api_base <> path;
            authorization = "Bearer " <> jwt;
            body = json_body;
          }))
      done (check_answer method path answer)

    unfoldable pub get_as : {T : Type 0} → (String → Result T String) → String → Task Json T
    get_as from_str path = do
      raw_body ← send get path none
      done (deserialize from_str get path raw_body)

    -- `body` is what serializing the request gave.
    unfoldable pub post_as :
        {T : Type 0} → Result Json String → (String → Result T String) → String → Task Json T
    post_as body from_str path = do
      json_body ← done (map_err (λ e. coinbase ("Failed to serialize request: " <> e)) body)
      raw_body ← send post path (some json_body)
      done (deserialize from_str post path raw_body)

    abbrev pub configured_id : String → Option String
    configured_id currency =
        if currency == "USDC"
        then c.usdc_account_id
        else if currency == "USD"
        then c.usd_account_id
        else none

    abbrev pub find_configured : String → Option String → Task Json CoinbaseAccount
    find_configured currency (some id) = do
      resp ← get_as account_response ("/v2/accounts/" <> id)
      done (ok resp.item)
    find_configured currency none = do
      resp ← get_as account_list "/v2/accounts?limit=300"
      done (
          ok_or_coinbase ("No " <> currency <> " account found on Coinbase")
            (find_by_code currency resp.items))

    unfoldable pub find_account : String → Task Json CoinbaseAccount
    find_account currency = find_configured currency (configured_id currency)
