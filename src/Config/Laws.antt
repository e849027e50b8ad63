-- ===== src/Config/Laws.antt =====
-- config.rs: what a loaded configuration guarantees.
use cryptosweep.Base.{
  Option, some, Option-cases, ◌≡◌, ◌≢◌, ◌↔◌, refl, ap, ◌∙◌, subst, String, true, not, ◌&&◌, inl,
  inr, List, [], ◌∷◌, All, arith, Bool-cases,
}
use cryptosweep.Types.Address.{DepositAddressConfig, validate_eth_address}
use cryptosweep.Types.Error.{IoError, Result, ok, Result-cases}
use cryptosweep.Config.Fills.{Fills, with_defaults_iff}
use cryptosweep.Config.{
  CryptoSweepConfig, TomlConfig, with_defaults, addresses_valid, is_empty, validate, load,
}

abbrev pub IsValidAddress : DepositAddressConfig → Type 0
IsValidAddress a = validate_eth_address a.address ≡ true

addresses_valid-All :
    (l : List DepositAddressConfig) → addresses_valid l ≡ true → All IsValidAddress l
unfolding addresses_valid
addresses_valid-All [] h = tt
addresses_valid-All (a ∷ l) h = (ground arith, addresses_valid-All l (ground arith))

All-addresses_valid :
    (l : List DepositAddressConfig) → All IsValidAddress l → addresses_valid l ≡ true
unfolding addresses_valid
All-addresses_valid [] h = refl
All-addresses_valid (a ∷ l) (good, rest) = ground (arith, good, All-addresses_valid l rest)

not-empty-valid :
    (l : List DepositAddressConfig)
    → l ≢ []
    → addresses_valid l ≡ true
    → (not (is_empty l) && addresses_valid l) ≡ true
not-empty-valid [] h good = absurd (h refl)
not-empty-valid (a ∷ l) h good = good

module _ {D : Type 0} where
  -- What the program asks of a configuration.
  abbrev pub IsValid : CryptoSweepConfig D → Type 0
  IsValid c = (c.deposit_addresses ≢ []) × All IsValidAddress c.deposit_addresses

  validate_iff : (c : CryptoSweepConfig D) → (validate c ≡ true) ↔ IsValid c
  unfolding validate
  validate_iff c = (
    λ h. (ground arith, addresses_valid-All c.deposit_addresses (ground arith)),
    λ (some_address, good).
        not-empty-valid c.deposit_addresses some_address
          (All-addresses_valid c.deposit_addresses good),
  )

  -- A configuration is loaded exactly if the file can be read, its text parses, the fields that it
  -- has make this configuration with the defaults for those that it lacks, and the configuration
  -- monitors at least one address and only well-formed ones.
  pub load_iff :
      (from_toml : String → Result (TomlConfig D) String) (report : CryptoSweepConfig D → String)
      (home : Option String) (path : String) (contents : Result String IoError)
      (c : CryptoSweepConfig D)
      → (load from_toml report home path contents ≡ some (ok c)) ↔ (
          (text : String) × (t : TomlConfig D) × (contents ≡ ok text)
          × (from_toml text ≡ ok t)
          × Fills home t c
          × IsValid c)
  unfolding load
  load_iff from_toml report home path contents c = (
    λ h. elim (Result-cases contents) [
      | inr (e, fails) ↦ absurd (cc (rw (fails, load) at h))
      | inl (text, reads) ↦ elim (Result-cases (from_toml text)) [
        | inr (e, fails) ↦ absurd (cc (rw (reads, fails, load) at h))
        | inl (t, parses) ↦ elim (Option-cases (with_defaults home t)) [
          | inl panics ↦ absurd (cc (rw (reads, parses, panics, load) at h))
          | inr (c', fills) ↦ elim (Bool-cases (validate c')) [
            | inr bad ↦ absurd (cc (rw (reads, parses, fills, bad, load) at h))
            | inl good ↦
                let same : c' ≡ c = cc (rw (reads, parses, fills, good, load) at h) in
                (
                  text,
                  t,
                  reads,
                  parses,
                  (with_defaults_iff home t c).0 (fills ∙ ap some same),
                  subst IsValid same ((validate_iff c').0 good),
                )
          ]
        ]
      ]
    ],
    λ (text, t, reads, parses, fills, valid).
        let good = (validate_iff c).1 valid in
        rw (reads, parses, (with_defaults_iff home t c).1 fills, good, load) refl,
  )
