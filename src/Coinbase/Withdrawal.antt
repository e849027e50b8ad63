-- ===== src/Coinbase/Withdrawal.antt =====
-- coinbase/mod.rs: what a withdrawal asks of the exchange, whatever the exchange answers.
use cryptosweep.Base.{
  ◌≡◌, ◌≢◌, refl, ap, ◌∙◌, ◌⊎◌, inl, inr, String, ◌<>◌, ℕ, true, Option, none, some, List, [], ◌∷◌,
  ◌++◌, ◌==◌, ==_iff, string_eq, Option-cases, Bool-cases,
}
use mathlib.Core.List.{append-nil}
use cryptosweep.Types.Decimal.{DecimalLib}
use cryptosweep.Types.Error.{AppError, Result, ok, err}
use cryptosweep.Types.State.{WithdrawalResult}
use cryptosweep.Coinbase.Models.{WithdrawalTransfer, TransferResponse, CoinbaseAccount}
use cryptosweep.Coinbase.Task.{
  HttpRequest, Answer, post, done, perform, utc_now, ◌>>=◌, Event, Runs, Exchange, exchanges,
}
use cryptosweep.Coinbase.Task.Laws.{exchanges-append, stopped, continued, sequence}
use cryptosweep.Coinbase.Auth.{JwtLib}
use cryptosweep.Coinbase.Client.{LiveCoinbaseClient, ApiSerde, find_account}
use cryptosweep.Coinbase.Operations.{
  withdrawal_path, withdrawal_body, check_transfer, usd_account, withdraw_usd,
}
use cryptosweep.Coinbase.Reads.{IsErr, Answered}
use cryptosweep.Coinbase.Requests.{
  read_answer-Answered, IsRequest, not_sent, refused, went_on, post_as-then,
}
use cryptosweep.Coinbase.Account.{FoundRun, find_account-FoundRun}

check_transfer-cases :
    (w : WithdrawalTransfer)
    → ((w.id ≢ "") × (check_transfer w ≡ ok w.id)) ⊎ ((w.id ≡ "") × IsErr (check_transfer w))
unfolding check_transfer
check_transfer-cases w = elim (Bool-cases (w.id == "")) [
  | inr full ↦ inl ((λ e. cc (full, (==_iff w.id "").1 e)), rw (full, check_transfer) refl)
  | inl empty ↦ elim (Option-cases w.cancellation_reason) [
    | inl plain ↦ inr ((==_iff w.id "").0 empty, rw (empty, plain, check_transfer) (_, refl))
    | inr (reason, given) ↦
        inr ((==_iff w.id "").0 empty, rw (empty, given, check_transfer) (_, refl))
  ]
]

module _ (L : DecimalLib) (J : JwtLib) {Json : Type 0} (S : ApiSerde Json)
    (c : LiveCoinbaseClient J.SigningKey) where
  open L use {Decimal, to_string}
  open S use {withdrawal_request, transfer_response}

  abbrev pub IsIdOf : Result CoinbaseAccount AppError → Result String AppError → Type 0
  IsIdOf (err e) x = x ≡ err e
  IsIdOf (ok account) x = x ≡ ok account.id

  -- The account that pays: the configured one, with no request, or what a search for `USD` finds.
  pub data PayerRun (xs : List (Exchange Json)) (x : Result String AppError) : Type 0 where
    configured : (id : String) → c.usd_account_id ≡ some id → xs ≡ [] → x ≡ ok id → PayerRun xs x
    found :
        (r : Result CoinbaseAccount AppError)
        → c.usd_account_id ≡ none
        → FoundRun S J c "USD" xs r
        → IsIdOf r x
        → PayerRun xs x

  -- The result of an order, by the answer to it: the transfer that it names; an error where this has
  -- no id; or the answer's error.
  pub data IsTransfer (amount : Decimal) (a : Answer)
      (r : Result (WithdrawalResult Decimal) AppError) : Type 0 where
    made :
        (resp : TransferResponse) (now : ℕ)
        → Answered transfer_response a (ok resp)
        → resp.transfer.id ≢ ""
        → r
          ≡ ok (record {
            withdrawal_transfer_id = resp.transfer.id;
            usd_amount = amount;
            initiated_at = now;
          })
        → IsTransfer amount a r
    rejected :
        (resp : TransferResponse)
        → Answered transfer_response a (ok resp)
        → resp.transfer.id ≡ ""
        → IsErr r
        → IsTransfer amount a r
    unread :
        (e : AppError) → Answered transfer_response a (err e) → r ≡ err e → IsTransfer amount a r

  -- The order: dollars of the amount, from the account to the payment method, committed at once.
  abbrev pub IsOrder : Decimal → String → String → HttpRequest Json → Type 0
  IsOrder amount payment_method_id id q =
      (json : Json) × (withdrawal_request (record {
        amount = to_string amount;
        currency = "USD";
        payment_method = payment_method_id;
        commit = true;
      })
        ≡ ok json)
      × IsRequest S J c post ("/v2/accounts/" <> id <> "/withdrawals") (some json) q

  pub data WithdrawalRun (amount : Decimal) (payment_method_id : String) (xs : List (Exchange Json))
      (r : Result (WithdrawalResult Decimal) AppError) : Type 0 where
    not_ordered :
        (x : Result String AppError)
        → PayerRun xs x
        → IsErr r
        → WithdrawalRun amount payment_method_id xs r
    ordered :
        (ys : List (Exchange Json)) (id : String) (q : HttpRequest Json) (a : Answer)
        → PayerRun ys (ok id)
        → IsOrder amount payment_method_id id q
        → xs ≡ ys ++ ((q, a) ∷ [])
        → IsTransfer amount a r
        → WithdrawalRun amount payment_method_id xs r

  payer-PayerRun :
      (o : Option String) (t : List (Event Json)) (x : Result String AppError)
      → c.usd_account_id ≡ o
      → Runs (usd_account L J S c o) t x
      → PayerRun (exchanges t) x
  payer-PayerRun (some id) t x e (et, ex) = configured id e (rw et refl) ex
  payer-PayerRun none t x e runs = elim (sequence (find_account S J c "USD") _ t x runs) [
    | stopped bad run er ↦ found (err bad) e (find_account-FoundRun S J c "USD" t (err bad) run) er
    | continued account first rest run (en, er) split ↦
        found (ok account) e
          (rw (split, en, exchanges-append first [], append-nil)
            (find_account-FoundRun S J c "USD" first (ok account) run))
          er
  ]

  finish-IsTransfer :
      (amount : Decimal) (a : Answer) (resp : TransferResponse) (t : List (Event Json))
      (r : Result (WithdrawalResult Decimal) AppError)
      → Answered transfer_response a (ok resp)
      → Runs
          (done (check_transfer resp.transfer) >>= λ id. perform utc_now >>= λ now.
            done (
              ok (record { withdrawal_transfer_id = id; usd_amount = amount; initiated_at = now })))
          t
          r
      → (exchanges t ≡ []) × IsTransfer amount a r
  finish-IsTransfer amount a resp t r reads runs = elim (check_transfer-cases resp.transfer) [
    | inl (full, accepted) ↦
        let (now, _, et, (en, er)) = rw accepted at runs in
        (rw (et, en) refl, made resp now reads full er)
    | inr (empty, (e, bad)) ↦
        let (et, er) = rw bad at runs in (rw et refl, rejected resp reads empty (e, er))
  ]

  -- Whatever the exchange answers, a withdrawal orders at most one transfer: of exactly the amount,
  -- in dollars, committed at once, to the payment method, and from the configured account or the
  -- one that the exchange lists for dollars. It succeeds only if the answer to this order carries a
  -- transfer id that is not empty, and then with this id.
  pub withdraw_usd-WithdrawalRun :
      (amount : Decimal) (payment_method_id : String) (t : List (Event Json))
      (r : Result (WithdrawalResult Decimal) AppError)
      → Runs (withdraw_usd L J S c amount payment_method_id) t r
      → WithdrawalRun amount payment_method_id (exchanges t) r
  unfolding withdraw_usd
  withdraw_usd-WithdrawalRun amount payment_method_id t r runs =
      elim (sequence (usd_account L J S c c.usd_account_id) _ t r runs) [
        | stopped e run er ↦
            not_ordered (err e) (payer-PayerRun c.usd_account_id t (err e) refl run) (e, er)
        | continued id first rest run run' split ↦
            let payer = payer-PayerRun c.usd_account_id first (ok id) refl run in
            let whole : exchanges t ≡ exchanges first ++ exchanges rest =
              ap exchanges split ∙ exchanges-append first rest in
            elim (post_as-then S J c
              (withdrawal_request (withdrawal_body L amount payment_method_id)) transfer_response
              (withdrawal_path id) _ rest r run') [
                | not_sent nothing bad ↦
                    not_ordered (ok id) (rw (whole, nothing, append-nil) payer) bad
                | refused json q a e prints is ex reads er ↦
                    ordered (exchanges first) id q a payer (json, prints, is)
                      (whole ∙ ap (λ x. exchanges first ++ x) ex)
                      (unread e
                        (read_answer-Answered S transfer_response post (withdrawal_path id) a
                          (err e) reads)
                        er)
                | went_on json q a resp later prints is ex reads go_on ↦
                    let (nothing, transfer) =
                      finish-IsTransfer amount a resp later r
                        (read_answer-Answered S transfer_response post (withdrawal_path id) a
                          (ok resp) reads)
                        go_on in
                    ordered (exchanges first) id q a payer (json, prints, is)
                      (whole ∙ ap (λ x. exchanges first ++ x) (ex ∙ ap (λ x. (q, a) ∷ x) nothing))
                      transfer
              ]
      ]
