-- ===== src/Coinbase/Account.antt =====
-- coinbase/mod.rs: which account of the exchange `find_account` finds.
use cryptosweep.Base.{
  ◌≡◌, ◌≢◌, refl, ap, ◌⊎◌, inl, inr, String, ◌<>◌, Option, none, some, List, [], ◌∷◌, ◌++◌, All,
  arith, false, ◌==◌, string_eq, ==_iff, Bool-cases,
}
use cryptosweep.Types.Error.{AppError, Result, ok, err}
use cryptosweep.Coinbase.Models.{V2ListResponse, V2DataResponse, CoinbaseAccount}
use cryptosweep.Coinbase.Task.{HttpRequest, Answer, get, Event, Runs, Exchange, exchanges}
use cryptosweep.Coinbase.Auth.{JwtLib}
use cryptosweep.Coinbase.Client.{
  LiveCoinbaseClient, ApiSerde, ok_or_coinbase, find_by_code, configured_id, find_configured,
  find_account,
}
use cryptosweep.Coinbase.Requests.{
  follow, read_answer, read_answer-Answered, IsRequest, get_as-then,
}
use cryptosweep.Coinbase.Reads.{IsErr, Answered}

abbrev HasOther : String → CoinbaseAccount → Type 0
HasOther currency a = a.currency.code ≢ currency

-- The account is the first of the list with the currency.
abbrev pub IsFirst : String → List CoinbaseAccount → CoinbaseAccount → Type 0
IsFirst currency items a =
    (earlier later : List CoinbaseAccount) × (items ≡ earlier ++ (a ∷ later))
    × (a.currency.code ≡ currency)
    × All (HasOther currency) earlier

-- The account that is found in a list, or that none has the currency.
abbrev pub FoundIn : String → List CoinbaseAccount → Option CoinbaseAccount → Type 0
FoundIn currency items none = All (HasOther currency) items
FoundIn currency items (some a) = IsFirst currency items a

module _ {Json : Type 0} (S : ApiSerde Json) where
  later-FoundIn :
      (currency : String) (b : CoinbaseAccount) (items : List CoinbaseAccount)
      (o : Option CoinbaseAccount)
      → HasOther currency b
      → FoundIn currency items o
      → FoundIn currency (b ∷ items) o
  later-FoundIn currency b items none other found = (other, found)
  later-FoundIn currency b items (some a) other (earlier, later, split, same, others) =
      (b ∷ earlier, later, ap (λ x. b ∷ x) split, same, (other, others))

  find_by_code-FoundIn :
      (currency : String) (items : List CoinbaseAccount)
      → FoundIn currency items (find_by_code S currency items)
  unfolding find_by_code
  find_by_code-FoundIn currency [] = tt
  find_by_code-FoundIn currency (b ∷ items) = elim (Bool-cases (b.currency.code == currency)) [
    | inl same ↦ rw same ([], items, refl, (==_iff _ _).0 same, tt)
    | inr other ↦ rw other (
        later-FoundIn currency b items (find_by_code S currency items)
          (λ e. ground (arith, (==_iff b.currency.code currency).1 e))
          (find_by_code-FoundIn currency items))
  ]

  module _ (J : JwtLib) (c : LiveCoinbaseClient J.SigningKey) where
    open S use {account_response, account_list}

    -- What is made of the exchange's list: its error, the first account with the currency, or an
    -- error where none has it.
    abbrev pub IsListed :
        String
        → Result (V2ListResponse CoinbaseAccount) AppError
        → Result CoinbaseAccount AppError
        → Type 0
    IsListed currency (err e) r = r ≡ err e
    IsListed currency (ok resp) r =
        ((a : CoinbaseAccount) × (r ≡ ok a) × IsFirst currency resp.items a)
        ⊎ (IsErr r × All (HasOther currency) resp.items)

    -- The id that the configuration gives for the currency.
    abbrev pub HasId : String → String → Type 0
    HasId currency id =
        ((currency ≡ "USDC") × (c.usdc_account_id ≡ some id))
        ⊎ ((currency ≡ "USD") × (c.usd_account_id ≡ some id))

    abbrev pub HasNoId : String → Type 0
    HasNoId currency =
        ((currency ≡ "USDC") × (c.usdc_account_id ≡ none))
        ⊎ (((currency ≡ "USD") × (c.usd_account_id ≡ none))
            ⊎ ((currency ≢ "USDC") × (currency ≢ "USD")))

    -- The account of an answer, or its error.
    abbrev pub IsItem :
        Result (V2DataResponse CoinbaseAccount) AppError → Result CoinbaseAccount AppError → Type 0
    IsItem (err e) r = r ≡ err e
    IsItem (ok resp) r = r ≡ ok resp.item

    pub data FoundRun (currency : String) (xs : List (Exchange Json))
        (r : Result CoinbaseAccount AppError) : Type 0 where
      by_id :
          (id : String) (q : HttpRequest Json) (a : Answer)
          (x : Result (V2DataResponse CoinbaseAccount) AppError)
          → HasId currency id
          → IsRequest S J c get ("/v2/accounts/" <> id) none q
          → xs ≡ (q, a) ∷ []
          → Answered account_response a x
          → IsItem x r
          → FoundRun currency xs r
      by_list :
          (q : HttpRequest Json) (a : Answer) (x : Result (V2ListResponse CoinbaseAccount) AppError)
          → HasNoId currency
          → IsRequest S J c get "/v2/accounts?limit=300" none q
          → xs ≡ (q, a) ∷ []
          → Answered account_list a x
          → IsListed currency x r
          → FoundRun currency xs r

    apart : (s s' : String) → (s == s') ≡ false → s ≢ s'
    apart s s' h e = cc (h, (==_iff s s').1 e)

    configured_id-HasId :
        (currency id : String) → configured_id S J c currency ≡ some id → HasId currency id
    configured_id-HasId currency id h = elim (Bool-cases (currency == "USDC")) [
      | inl usdc ↦ inl ((==_iff currency "USDC").0 usdc, rw usdc at h)
      | inr other ↦ elim (Bool-cases (currency == "USD")) [
        | inl usd ↦ inr ((==_iff currency "USD").0 usd, rw (other, usd) at h)
        | inr neither ↦ absurd (cc (rw (other, neither) at h))
      ]
    ]

    configured_id-HasNoId :
        (currency : String) → configured_id S J c currency ≡ none → HasNoId currency
    configured_id-HasNoId currency h = elim (Bool-cases (currency == "USDC")) [
      | inl usdc ↦ inl ((==_iff currency "USDC").0 usdc, rw usdc at h)
      | inr other ↦ elim (Bool-cases (currency == "USD")) [
        | inl usd ↦ inr (inl ((==_iff currency "USD").0 usd, rw (other, usd) at h))
        | inr neither ↦ inr (inr (apart currency "USDC" other, apart currency "USD" neither))
      ]
    ]

    read-IsItem :
        (x : Result (V2DataResponse CoinbaseAccount) AppError) (r : Result CoinbaseAccount AppError)
        → r ≡ follow x (λ resp. ok resp.item)
        → IsItem x r
    read-IsItem (err e) r er = er
    read-IsItem (ok resp) r er = er

    chosen-IsListed :
        (currency m : String) (resp : V2ListResponse CoinbaseAccount) (o : Option CoinbaseAccount)
        (r : Result CoinbaseAccount AppError)
        → FoundIn currency resp.items o
        → r ≡ ok_or_coinbase m o
        → IsListed currency (ok resp) r
    chosen-IsListed currency m resp none r found er = inr ((_, er), found)
    chosen-IsListed currency m resp (some a) r found er = inl (a, er, found)

    read-IsListed :
        (currency : String) (x : Result (V2ListResponse CoinbaseAccount) AppError)
        (r : Result CoinbaseAccount AppError)
        → r
          ≡ follow x (λ resp.
            ok_or_coinbase
              ("No " <> currency <> " account found on Coinbase")
              (find_by_code S currency resp.items))
        → IsListed currency x r
    read-IsListed currency (err e) r er = er
    read-IsListed currency (ok resp) r er =
        chosen-IsListed currency _ resp (find_by_code S currency resp.items) r
          (find_by_code-FoundIn currency resp.items) er

    configured-FoundRun :
        (currency : String) (o : Option String) (t : List (Event Json))
        (r : Result CoinbaseAccount AppError)
        → configured_id S J c currency ≡ o
        → Runs (find_configured S J c currency o) t r
        → FoundRun currency (exchanges t) r
    configured-FoundRun currency none t r e runs =
        let (q, a, is, ex, er) =
          get_as-then S J c account_list "/v2/accounts?limit=300" _ t r runs in
        by_list q a (read_answer S account_list get "/v2/accounts?limit=300" a)
          (configured_id-HasNoId currency e) is ex
          (read_answer-Answered S account_list get "/v2/accounts?limit=300" a _ refl)
          (read-IsListed currency _ r er)
    configured-FoundRun currency (some id) t r e runs =
        let (q, a, is, ex, er) =
          get_as-then S J c account_response ("/v2/accounts/" <> id) _ t r runs in
        by_id id q a (read_answer S account_response get ("/v2/accounts/" <> id) a)
          (configured_id-HasId currency id e) is ex
          (read_answer-Answered S account_response get ("/v2/accounts/" <> id) a _ refl)
          (read-IsItem _ r er)

    -- Whatever the exchange answers, a search for an account sends one request: for the account
    -- whose id is configured for the currency, and the answer's account is the result; or for the
    -- list of accounts where none is configured, and the first with the currency is the result.
    -- It is an error only if the answer is one or no account of the list has the currency.
    pub find_account-FoundRun :
        (currency : String) (t : List (Event Json)) (r : Result CoinbaseAccount AppError)
        → Runs (find_account S J c currency) t r
        → FoundRun currency (exchanges t) r
    unfolding find_account
    find_account-FoundRun currency t r runs =
        configured-FoundRun currency (configured_id S J c currency) t r refl runs
