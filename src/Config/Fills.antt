-- ===== src/Config/Fills.antt =====
-- config.rs: the fields of a configuration, from those of the file and the documented defaults.
use cryptosweep.Base.{
  ◌≡◌, ◌↔◌, refl, sym, ap, subst, ◌⊎◌, inl, inr, String, Option, none, some, Option-cases, [],
}
use cryptosweep.Base.FilePath.{join}
use cryptosweep.Config.{
  CryptoSweepConfig, TomlConfig, with_defaults, or_default, filled, state_file_or,
  default_sell_settle_delay_secs,
}

-- A field is as given, or the default where it is missing.
abbrev pub IsGivenOr : {A : Type 0} → A → Option A → A → Type 0
IsGivenOr default o a = (o ≡ some a) ⊎ ((o ≡ none) × (a ≡ default))

-- The state file is as given, or in the program's directory of the user's home.
abbrev pub IsStateFile : Option String → Option String → String → Type 0
IsStateFile home o file =
    (o ≡ some file)
    ⊎ ((o ≡ none)
        × ((h : String) × (home ≡ some h) × (file ≡ join (join h ".cryptosweep") "state.json")))

or_default-IsGivenOr : {A : Type 0} (d : A) (o : Option A) → IsGivenOr d o (or_default d o)
or_default-IsGivenOr d none = inr (refl, refl)
or_default-IsGivenOr d (some a) = inl refl

IsGivenOr-or_default :
    {A : Type 0} (d : A) (o : Option A) (a : A) → IsGivenOr d o a → or_default d o ≡ a
IsGivenOr-or_default d none a (inl bad) = absurd (cc bad)
IsGivenOr-or_default d none a (inr (_, e)) = sym e
IsGivenOr-or_default d (some b) a (inl e) = cc e
IsGivenOr-or_default d (some b) a (inr (bad, _)) = absurd (cc bad)

state_file_or_iff :
    (home o : Option String) (file : String)
    → (state_file_or home o ≡ some file) ↔ IsStateFile home o file
state_file_or_iff home (some f) file =
    (λ e. inl e, λ is. elim is [ inl e ↦ e | inr (bad, _) ↦ absurd (cc bad) ])
state_file_or_iff none none file =
    (λ e. absurd (cc e), λ is. elim is [ inl e ↦ e | inr (_, (h, bad, _)) ↦ absurd (cc bad) ])
state_file_or_iff (some h) none file = (
  λ e. inr (refl, (h, refl, cc e)),
  λ is. elim is [ inl bad ↦ absurd (cc bad) | inr (_, (h', same, e)) ↦ cc (same, e) ],
)

module _ {D : Type 0} where
  -- The configuration has the fields of the file, and the documented defaults for those it lacks.
  pub record Fills (home : Option String) (t : TomlConfig D) (c : CryptoSweepConfig D)
      : Type 0 where
    pub max_auto_amount : c.max_auto_amount ≡ t.max_auto_amount
    pub default_payment_method_id : c.default_payment_method_id ≡ t.default_payment_method_id
    pub deposit_addresses : IsGivenOr [] t.deposit_addresses c.deposit_addresses
    pub confirmation_blocks : IsGivenOr [] t.confirmation_blocks c.confirmation_blocks
    pub start_blocks : IsGivenOr [] t.start_blocks c.start_blocks
    pub coinbase_api_key : c.coinbase_api_key ≡ t.coinbase_api_key
    pub coinbase_api_secret : c.coinbase_api_secret ≡ t.coinbase_api_secret
    pub telegram_bot_token : c.telegram_bot_token ≡ t.telegram_bot_token
    pub telegram_chat_id : c.telegram_chat_id ≡ t.telegram_chat_id
    pub coinbase_usdc_account_id : c.coinbase_usdc_account_id ≡ t.coinbase_usdc_account_id
    pub coinbase_usd_account_id : c.coinbase_usd_account_id ≡ t.coinbase_usd_account_id
    pub sell_settle_delay_secs : IsGivenOr 30 t.sell_settle_delay_secs c.sell_settle_delay_secs
    pub state_file : IsStateFile home t.state_file c.state_file

  filled-Fills :
      (home : Option String) (t : TomlConfig D) (file : String)
      → IsStateFile home t.state_file file
      → Fills home t (filled t file)
  unfolding default_sell_settle_delay_secs
  filled-Fills home t file is = record {
    max_auto_amount = refl;
    default_payment_method_id = refl;
    deposit_addresses = or_default-IsGivenOr [] t.deposit_addresses;
    confirmation_blocks = or_default-IsGivenOr [] t.confirmation_blocks;
    start_blocks = or_default-IsGivenOr [] t.start_blocks;
    coinbase_api_key = refl;
    coinbase_api_secret = refl;
    telegram_bot_token = refl;
    telegram_chat_id = refl;
    coinbase_usdc_account_id = refl;
    coinbase_usd_account_id = refl;
    sell_settle_delay_secs = or_default-IsGivenOr 30 t.sell_settle_delay_secs;
    state_file = is;
  }

  Fills-filled :
      (home : Option String) (t : TomlConfig D) (c : CryptoSweepConfig D)
      → Fills home t c
      → filled t c.state_file ≡ c
  unfolding default_sell_settle_delay_secs
  Fills-filled home t c f =
      let addresses =
        IsGivenOr-or_default [] t.deposit_addresses c.deposit_addresses f.deposit_addresses in
      let confirmations =
        IsGivenOr-or_default [] t.confirmation_blocks c.confirmation_blocks f.confirmation_blocks in
      let starts = IsGivenOr-or_default [] t.start_blocks c.start_blocks f.start_blocks in
      let delay =
        IsGivenOr-or_default 30 t.sell_settle_delay_secs c.sell_settle_delay_secs
          f.sell_settle_delay_secs in
      rw
        (
          sym f.max_auto_amount,
          sym f.default_payment_method_id,
          addresses,
          confirmations,
          starts,
          sym f.coinbase_api_key,
          sym f.coinbase_api_secret,
          sym f.telegram_bot_token,
          sym f.telegram_chat_id,
          sym f.coinbase_usdc_account_id,
          sym f.coinbase_usd_account_id,
          delay,
        )
        refl

  pub with_defaults_iff :
      (home : Option String) (t : TomlConfig D) (c : CryptoSweepConfig D)
      → (with_defaults home t ≡ some c) ↔ Fills home t c
  with_defaults_iff home t c = (
    λ e. elim (Option-cases (state_file_or home t.state_file)) [
      | inl none_given ↦ absurd (cc (rw none_given at e))
      | inr (file, given) ↦
          let same : filled t file ≡ c = cc (rw given at e) in
          subst (Fills home t) same
            (filled-Fills home t file ((state_file_or_iff home t.state_file file).0 given))
    ],
    λ f.
        let given = (state_file_or_iff home t.state_file c.state_file).1 f.state_file in
        rw given (ap some (Fills-filled home t c f)),
  )
