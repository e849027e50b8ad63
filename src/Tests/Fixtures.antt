-- ===== src/Tests/Fixtures.antt =====
-- Concrete services and data that the tests share.
use Prim.Native.Nat.{◌/◌}
use cryptosweep.Base.{String, ℕ, ◌*◌, ◌^◌, true, none, [], ◌∷◌, ltb, show_nat}
use cryptosweep.Types.Address.{DepositAddressConfig}
use cryptosweep.Types.Chain.{ethereum}
use cryptosweep.Types.Decimal.{DecimalLib}
use cryptosweep.Types.Error.{ok}
use cryptosweep.Types.State.{
  PersistedState, BankPayment, failed, EligibleDeposit, UsdcReceive, FetchReceivesOk, SellResult,
  WithdrawalResult, empty_state,
}
use cryptosweep.Types.Traits.{BlockExplorer}
use cryptosweep.Config.{CryptoSweepConfig}
use cryptosweep.Orchestrator.Scan.{Clock, ChainDepositCheck}
use cryptosweep.Orchestrator.Pass.{DepositCheck}
use cryptosweep.Worker.Liquidate.{CbWorker}

-- Decimals in millionths.
abbrev pub micro : DecimalLib
micro = record {
  Decimal = ℕ;
  lt = ltb;
  dec = λ m s. m * 10 ^ 6 / 10 ^ s;
  from_u128 = λ n. n * 10 ^ 6;
  from_u64 = λ n. n * 10 ^ 6;
  div = λ a b. a * 10 ^ 6 / b;
  to_string = show_nat;
  from_str = λ s. none;
}

abbrev pub now : ℕ
now = 1790000000 * 10 ^ 9

abbrev pub monitored : DepositAddressConfig
monitored = record {
  address = "0x00000000000000000000000000000000000000a1";
  payment_method_id = "bank";
}

abbrev pub settings : CryptoSweepConfig ℕ
settings = record {
  max_auto_amount = 100 * 10 ^ 6;
  default_payment_method_id = "bank";
  deposit_addresses = monitored ∷ [];
  confirmation_blocks = (ethereum, 10) ∷ [];
  start_blocks = (ethereum, 800) ∷ [];
  coinbase_api_key = "";
  coinbase_api_secret = "";
  telegram_bot_token = "";
  telegram_chat_id = "";
  coinbase_usdc_account_id = none;
  coinbase_usd_account_id = none;
  sell_settle_delay_secs = 30;
  state_file = "state.json";
}

-- A deposit of five dollars with enough confirmations, and one that is too young.
abbrev pub old_receive : UsdcReceive ℕ
old_receive = record { tx_hash = "0xaa"; amount = 5 * 10 ^ 6; block_number = 900; fetched_at = now }

abbrev pub young_receive : UsdcReceive ℕ
young_receive = record {
  tx_hash = "0xbb";
  amount = 7 * 10 ^ 6;
  block_number = 995;
  fetched_at = now;
}

abbrev pub fetched : FetchReceivesOk ℕ
fetched = record { receives = old_receive ∷ young_receive ∷ []; confirmed_frontier = 1000 }

abbrev pub answering : BlockExplorer ℕ
answering = record {
  get_block_height = ok 1000;
  fetch_usdc_receives = λ address since to. ok fetched;
}

abbrev pub clock : Clock
clock = record { stale_at = λ c a. now; sent_at = λ c a h. now; merged_at = λ c. now }

abbrev pub check : ChainDepositCheck ℕ
check = record {
  config = settings;
  state = empty_state;
  explorer = answering;
  chain = ethereum;
  send = λ d. true;
  clock = clock;
}

-- Two passes: the second begins with the given state.
abbrev pub pass_from : PersistedState ℕ → DepositCheck ℕ
pass_from state = record {
  config = settings;
  state = state;
  explorers = (ethereum, answering) ∷ [];
  send = λ d. true;
  clock = clock;
}

abbrev pub deposit : EligibleDeposit ℕ
deposit = record {
  deposit_address = monitored.address;
  chain = ethereum;
  tx_hash = "0xaa";
  usdc_amount = 5 * 10 ^ 6;
  payment_method_id = "bank";
  deposit_timestamp = now;
  processed_at = now;
}

abbrev pub worker : CbWorker ℕ
worker = record { max_auto_amount = 100 * 10 ^ 6; sell_settle_delay_secs = 30 }

abbrev pub sold : SellResult ℕ
sold = record { order_id = "o1"; usdc_sold = 5 * 10 ^ 6; usd_received = 4990000; executed_at = now }

abbrev pub withdrawal : WithdrawalResult ℕ
withdrawal = record { withdrawal_transfer_id = "w1"; usd_amount = 4990000; initiated_at = now }

-- A day, as text.
abbrev pub format_date : ℕ → String
format_date t = show_nat (t / 86400000000000)

abbrev pub old_payment : BankPayment ℕ
old_payment = record {
  id = "old";
  deposit_address = monitored.address;
  chain = ethereum;
  deposit_tx_hash = "0xcc";
  usdc_amount = 5 * 10 ^ 6;
  payment_method_id = "bank";
  outcome = failed "no account" 5;
  deposit_timestamp = 5;
  processed_at = 5;
}
