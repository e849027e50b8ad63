-- ===== src/Coinbase/Amounts.antt =====
-- coinbase/mod.rs: the amounts that the answer to a commit carries, and how the program reads them.
use cryptosweep.Base.{◌≡◌, refl, ◌⊎◌, inl, inr, String, Option, none, some, Option-cases}
use cryptosweep.Types.Decimal.{DecimalLib}
use cryptosweep.Types.Error.{ok}
use cryptosweep.Coinbase.Models.{ConvertAmount, ConvertTrade}
use cryptosweep.Coinbase.Operations.{decimal_of, amounts_of}
use cryptosweep.Coinbase.Reads.{IsErr}

module _ (L : DecimalLib) where
  open L use {Decimal, from_str}

  -- An amount is given and reads as the number; or it is missing, or no number.
  abbrev pub IsAmount : Option ConvertAmount → Decimal → Type 0
  IsAmount o x =
      (m : ConvertAmount) × (s : String) × (o ≡ some m) × (m.value ≡ some s) × (from_str s ≡ some x)

  abbrev pub IsNoAmount : Option ConvertAmount → Type 0
  IsNoAmount o =
      (o ≡ none)
      ⊎ ((m : ConvertAmount) × (o ≡ some m)
          × ((m.value ≡ none) ⊎ ((s : String) × (m.value ≡ some s) × (from_str s ≡ none))))

  -- A trade that is missing, or that lacks the dollars received or the coins sold.
  abbrev pub LacksAmounts : Option ConvertTrade → Type 0
  LacksAmounts o =
      (o ≡ none)
      ⊎ ((t : ConvertTrade) × (o ≡ some t)
          × (IsNoAmount t.total ⊎ IsNoAmount t.user_entered_amount))

  decimal_of-cases :
      (o : Option ConvertAmount)
      → ((x : Decimal) × (decimal_of L o ≡ some x) × IsAmount o x)
        ⊎ ((decimal_of L o ≡ none) × IsNoAmount o)
  decimal_of-cases none = inr (refl, inl refl)
  decimal_of-cases (some m) = elim (Option-cases m.value) [
    | inl bare ↦ inr (rw bare refl, inr (m, refl, inl bare))
    | inr (s, given) ↦ elim (Option-cases (from_str s)) [
      | inl bad ↦ inr (rw (given, bad) refl, inr (m, refl, inr (s, given, bad)))
      | inr (x, reads) ↦ inl (x, rw (given, reads) refl, (m, s, refl, given, reads))
    ]
  ]

  abbrev pub HasAmounts : Option ConvertTrade → Decimal → Decimal → Type 0
  HasAmounts o received entered =
      (t : ConvertTrade) × (o ≡ some t)
      × IsAmount t.total received
      × IsAmount t.user_entered_amount entered

  pub amounts_of-cases :
      (o : Option ConvertTrade)
      → ((received entered : Decimal) × (amounts_of L o ≡ ok (received, entered))
          × HasAmounts o received entered)
        ⊎ (IsErr (amounts_of L o) × LacksAmounts o)
  unfolding amounts_of
  amounts_of-cases none = inr ((_, refl), inl refl)
  amounts_of-cases (some t) = elim (decimal_of-cases t.total) [
    | inr (bad, missing) ↦ inr (rw (bad, amounts_of) (_, refl), inr (t, refl, inl missing))
    | inl (received, reads, total) ↦ elim (decimal_of-cases t.user_entered_amount) [
      | inr (bad, missing) ↦ inr (rw (reads, bad, amounts_of) (_, refl), inr (t, refl, inr missing))
      | inl (entered, reads', amount) ↦
          inl (received, entered, rw (reads, reads', amounts_of) refl, (t, refl, total, amount))
    ]
  ]
