-- ===== src/Coinbase/Sale.antt =====
-- coinbase/mod.rs: what a sale asks of the exchange, whatever the exchange answers.
use cryptosweep.Base.{
  ◌≡◌, refl, ap, ◌∙◌, inl, inr, String, ◌<>◌, ℕ, some, List, [], ◌∷◌, Option-cases,
}
use cryptosweep.Coinbase.Models.{ConvertTrade, ConvertQuoteResponse, ConvertTradeResponse}
use cryptosweep.Coinbase.Amounts.{IsAmount, LacksAmounts, amounts_of-cases}
use cryptosweep.Coinbase.Reads.{IsErr, Answered}
use cryptosweep.Types.Decimal.{DecimalLib}
use cryptosweep.Types.Error.{AppError, Result, ok, err}
use cryptosweep.Types.State.{SellResult}
use cryptosweep.Coinbase.Task.{
  HttpRequest, Answer, post, done, perform, utc_now, ◌>>=◌, Event, Runs, Exchange, exchanges,
}
use cryptosweep.Coinbase.Auth.{JwtLib}
use cryptosweep.Coinbase.Client.{LiveCoinbaseClient, ApiSerde, post_as}
use cryptosweep.Coinbase.Operations.{
  quote_path, commit_path, commit_body, quote_body, amounts_of, trade_id_of, sold_for, sell_usdc,
}
use cryptosweep.Coinbase.Requests.{
  read_answer-Answered, IsRequest, not_sent, refused, went_on, post_as-then,
}

module _ (L : DecimalLib) (J : JwtLib) {Json : Type 0} (S : ApiSerde Json)
    (c : LiveCoinbaseClient J.SigningKey) where
  open L use {Decimal, to_string, from_str}
  open S use {quote_request, commit_request, quote_response, trade_response}

  -- The answer to the quote carries a trade with the id.
  abbrev pub IsQuoted : Answer → String → Type 0
  IsQuoted a id =
      (resp : ConvertQuoteResponse) × (t : ConvertTrade) × Answered quote_response a (ok resp)
      × (resp.trade ≡ some t)
      × (t.id ≡ some id)

  -- The result of a sale whose trade was committed under the id, by the answer to the commit: the
  -- trade's total received for the amount that was entered; the answer's error; or an error
  -- where it lacks one of the amounts.
  pub data IsSale (id : String) (a : Answer) (r : Result (SellResult Decimal) AppError)
      : Type 0 where
    sold :
        (resp : ConvertTradeResponse) (t : ConvertTrade) (received entered : Decimal) (now : ℕ)
        → Answered trade_response a (ok resp)
        → resp.trade ≡ some t
        → IsAmount L t.total received
        → IsAmount L t.user_entered_amount entered
        → r
          ≡ ok (record {
            order_id = id;
            usdc_sold = entered;
            usd_received = received;
            executed_at = now;
          })
        → IsSale id a r
    incomplete :
        (resp : ConvertTradeResponse)
        → Answered trade_response a (ok resp)
        → LacksAmounts L resp.trade
        → IsErr r
        → IsSale id a r
    unread : (e : AppError) → Answered trade_response a (err e) → r ≡ err e → IsSale id a r

  abbrev pub IsQuote : Decimal → HttpRequest Json → Type 0
  IsQuote amount q =
      (json : Json) × (quote_request
          (record { from_account = "USDC"; to_account = "USD"; amount = to_string amount })
        ≡ ok json)
      × IsRequest S J c post "/api/v3/brokerage/convert/quote" (some json) q

  abbrev pub IsCommit : String → HttpRequest Json → Type 0
  IsCommit id q =
      (json : Json) × (commit_request (record { from_account = "USDC"; to_account = "USD" })
        ≡ ok json)
      × IsRequest S J c post ("/api/v3/brokerage/convert/trade/" <> id) (some json) q

  pub data SaleRun (amount : Decimal) (xs : List (Exchange Json))
      (r : Result (SellResult Decimal) AppError) : Type 0 where
    nothing_sent : xs ≡ [] → IsErr r → SaleRun amount xs r
    only_quoted :
        (q : HttpRequest Json) (a : Answer)
        → IsQuote amount q
        → xs ≡ (q, a) ∷ []
        → IsErr r
        → SaleRun amount xs r
    committed :
        (q q' : HttpRequest Json) (a a' : Answer) (id : String)
        → IsQuote amount q
        → IsQuoted a id
        → IsCommit id q'
        → xs ≡ (q, a) ∷ (q', a') ∷ []
        → IsSale id a' r
        → SaleRun amount xs r

  trade_id_of-IsQuoted :
      (a : Answer) (resp : ConvertQuoteResponse) (id : String)
      → Answered quote_response a (ok resp)
      → trade_id_of L resp.trade ≡ ok id
      → IsQuoted a id
  unfolding trade_id_of
  trade_id_of-IsQuoted a resp id reads h = elim (Option-cases resp.trade) [
    | inl missing ↦ absurd (cc (rw (missing, trade_id_of) at h))
    | inr (t, given) ↦ elim (Option-cases t.id) [
      | inl missing ↦ absurd (cc (rw (given, trade_id_of, missing) at h))
      | inr (i, here) ↦
          let same : i ≡ id = cc (rw (given, trade_id_of, here) at h) in
          (resp, t, reads, given, (here ∙ ap some same))
    ]
  ]

  finish-IsSale :
      (id : String) (a : Answer) (resp : ConvertTradeResponse) (t : List (Event Json))
      (r : Result (SellResult Decimal) AppError)
      → Answered trade_response a (ok resp)
      → Runs
          (done (amounts_of L resp.trade) >>= λ amounts.
            perform utc_now >>= λ now. done (ok (sold_for L J S c id amounts now)))
          t
          r
      → (exchanges t ≡ []) × IsSale id a r
  finish-IsSale id a resp t r reads runs = elim (amounts_of-cases L resp.trade) [
    | inl (received, entered, amounts, (trade, given, total, amount)) ↦
        let (now, _, et, (en, er)) = rw amounts at runs in
        (rw (et, en) refl, sold resp trade received entered now reads given total amount er)
    | inr ((e, bad), missing) ↦
        let (et, er) = rw bad at runs in (rw et refl, incomplete resp reads missing (e, er))
  ]

  -- The trace of the commit, behind a quote.
  data CommitRun (id : String) (xs : List (Exchange Json))
      (r : Result (SellResult Decimal) AppError) : Type 0 where
    silent : xs ≡ [] → IsErr r → CommitRun id xs r
    was_sent :
        (q : HttpRequest Json) (a : Answer)
        → IsCommit id q
        → xs ≡ (q, a) ∷ []
        → IsSale id a r
        → CommitRun id xs r

  commit-CommitRun :
      (id : String) (t : List (Event Json)) (r : Result (SellResult Decimal) AppError)
      → Runs
          (post_as S J c (commit_request commit_body) trade_response (commit_path id) >>= λ resp.
            done (amounts_of L resp.trade) >>= λ amounts.
            perform utc_now >>= λ now. done (ok (sold_for L J S c id amounts now)))
          t
          r
      → CommitRun id (exchanges t) r
  commit-CommitRun id t r runs =
      elim (post_as-then S J c (commit_request commit_body) trade_response (commit_path id) _ t r
        runs) [
          | not_sent ex bad ↦ silent ex bad
          | refused json q a e prints is ex reads er ↦
              was_sent q a (json, prints, is) ex
                (unread e
                  (read_answer-Answered S trade_response post (commit_path id) a (err e) reads) er)
          | went_on json q a resp rest prints is ex reads run ↦
              let (nothing, sale) =
                finish-IsSale id a resp rest r
                  (read_answer-Answered S trade_response post (commit_path id) a (ok resp) reads)
                  run in
              was_sent q a (json, prints, is) (ex ∙ ap (λ x. (q, a) ∷ x) nothing) sale
        ]

  -- The trace behind a readable quote.
  quoted-SaleRun :
      (amount : Decimal) (q : HttpRequest Json) (a : Answer) (x : Result String AppError)
      (t rest : List (Event Json)) (r : Result (SellResult Decimal) AppError)
      → IsQuote amount q
      → ((id : String) → x ≡ ok id → IsQuoted a id)
      → exchanges t ≡ (q, a) ∷ exchanges rest
      → Runs
          (done x >>= λ id.
            post_as S J c (commit_request commit_body) trade_response (commit_path id) >>= λ resp.
            done (amounts_of L resp.trade) >>= λ amounts.
            perform utc_now >>= λ now. done (ok (sold_for L J S c id amounts now)))
          rest
          r
      → SaleRun amount (exchanges t) r
  quoted-SaleRun amount q a (err e) t rest r is reads ex (et, er) =
      only_quoted q a is (rw (ex, et) refl) (e, er)
  quoted-SaleRun amount q a (ok id) t rest r is reads ex runs =
      elim (commit-CommitRun id rest r runs) [
        | silent nothing bad ↦ only_quoted q a is (ex ∙ ap (λ x. (q, a) ∷ x) nothing) bad
        | was_sent q' a' is' ex' sale ↦
            committed q q' a a' id is (reads id refl) is' (ex ∙ ap (λ x. (q, a) ∷ x) ex') sale
      ]

  -- Whatever the exchange answers, a sale sends nothing, or one request for a quote of exactly the
  -- amount, or this and one request to commit the trade that the answer to the quote names. It
  -- succeeds exactly in the last case where the answer to the commit has a trade with both amounts,
  -- and then with the quoted trade's id, the total as the dollars received, and the amount that
  -- was entered as the coins sold.
  pub sell_usdc-SaleRun :
      (amount : Decimal) (t : List (Event Json)) (r : Result (SellResult Decimal) AppError)
      → Runs (sell_usdc L J S c amount) t r
      → SaleRun amount (exchanges t) r
  unfolding sell_usdc
  sell_usdc-SaleRun amount t r runs =
      elim (post_as-then S J c (quote_request (quote_body L amount)) quote_response quote_path _ t r
        runs) [
          | not_sent ex bad ↦ nothing_sent ex bad
          | refused json q a e prints is ex reads er ↦ only_quoted q a (json, prints, is) ex (e, er)
          | went_on json q a resp rest prints is ex reads run ↦
              quoted-SaleRun amount q a (trade_id_of L resp.trade) t rest r (json, prints, is)
                (λ id.
                  trade_id_of-IsQuoted a resp id
                    (read_answer-Answered S quote_response post quote_path a (ok resp) reads))
                ex run
        ]
