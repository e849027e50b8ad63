-- ===== src/Coinbase/Models.antt =====
-- coinbase/models.rs: the requests to the exchange and its responses.
use cryptosweep.Base.{String, Bool, Option, List}

pub record V2ListResponse (T : Type 0) : Type 0 where
  pub items : List T

pub record V2DataResponse (T : Type 0) : Type 0 where
  pub item : T

pub record CurrencyInfo : Type 0 where
  pub code : String

pub record MoneyAmount : Type 0 where
  pub amount : String
  pub currency : String

pub record CoinbaseAccount : Type 0 where
  pub id : String
  pub name : String
  pub currency : CurrencyInfo
  pub balance : MoneyAmount

pub record WithdrawalRequest : Type 0 where
  pub amount : String
  pub currency : String
  pub payment_method : String
  pub commit : Bool

pub record ConvertAmount : Type 0 where
  pub value : Option String
  pub currency : Option String

pub record CancellationReason : Type 0 where
  pub message : String
  pub code : String

pub record WithdrawalTransfer : Type 0 where
  pub id : String
  pub amount : Option ConvertAmount
  pub committed : Option Bool
  pub status : String
  pub cancellation_reason : Option CancellationReason

pub record TransferResponse : Type 0 where
  pub transfer : WithdrawalTransfer

pub record ConvertQuoteRequest : Type 0 where
  pub from_account : String
  pub to_account : String
  pub amount : String

pub record ConvertCommitRequest : Type 0 where
  pub from_account : String
  pub to_account : String

pub record ConvertFee : Type 0 where
  pub title : Option String
  pub amount : Option ConvertAmount

pub record ConvertTrade : Type 0 where
  pub id : Option String
  pub status : Option String
  pub user_entered_amount : Option ConvertAmount
  pub total : Option ConvertAmount
  pub subtotal : Option ConvertAmount
  pub total_fee : Option ConvertFee
  pub source_currency : Option String
  pub target_currency : Option String
  pub exchange_rate : Option ConvertAmount

pub record ConvertQuoteResponse : Type 0 where
  pub trade : Option ConvertTrade

pub record ConvertTradeResponse : Type 0 where
  pub trade : Option ConvertTrade
