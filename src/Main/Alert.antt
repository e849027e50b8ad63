-- ===== src/Main/Alert.antt =====
-- main.rs: when a run alerts the user.
use cryptosweep.Base.{
  ◌≡◌, ◌≢◌, ◌↔◌, ◌⊎◌, ◌≤◌, refl, sym, ◌∙◌, inl, inr, String, some, List, [], ◌∷◌, ◌++◌, length, In,
  subst, arith,
}
use cryptosweep.Base.Dict
use cryptosweep.Types.Chain.{
  Chain, chain_eq, chains, ethereum, polygon, arbitrum, optimism, base, monad,
}
use cryptosweep.Types.Decimal.{DecimalLib}
use cryptosweep.Types.Error.{AppError, Result, ok, err}
use cryptosweep.Types.State.{PersistedState}
use cryptosweep.Config.{CryptoSweepConfig}
use cryptosweep.Coinbase.Auth.{JwtLib}
use cryptosweep.Coinbase.Client
use cryptosweep.Orchestrator.Scan.{ChainDepositCheck}
use cryptosweep.Orchestrator.Scan
use cryptosweep.Orchestrator.Scan.Errors.{
  append-ne-nil, append-ne-nil_cases, Trouble, run_errors_iff,
}
use cryptosweep.Orchestrator.Pass.{check_of, chain_results}
use cryptosweep.Orchestrator.Pass
use cryptosweep.Orchestrator.Pass.Errors.{errors-run, Reports, discover-Reports, Reports-discover}
use cryptosweep.Persistence.File.{Disk, read_to_string, load_state}
use cryptosweep.Main.{World, error_messages, save_errors, explorers, pass_of, save, run_from, run}
use cryptosweep.Main.Kill.{client_of}

error_messages_iff : (es : List String) → (error_messages es ≢ []) ↔ (es ≢ [])
unfolding error_messages
error_messages_iff [] = (λ h. h, λ h. h)
error_messages_iff (e ∷ es) = (λ h q. cc, λ h q. cc)

error_messages-le : (es : List String) → length (error_messages es) ≤ 1
unfolding error_messages
error_messages-le [] = omega arith
error_messages-le (e ∷ es) = omega arith

save_errors_iff : (r : Result (Unit {0}) AppError) → (save_errors r ≢ []) ↔ (r ≢ ok tt)
save_errors_iff (ok _) = (λ h q. h refl, λ h q. h refl)
save_errors_iff (err e) = (λ h q. cc, λ h q. cc)

module _ (L : DecimalLib) (config : CryptoSweepConfig L.Decimal) (w : World L.Decimal) where
  open L use {Decimal}

  get-explorers : (chain : Chain) → Dict.get chain (explorers L config w) ≡ some (w.explorers chain)
  unfolding Dict.get chain_eq
  get-explorers ethereum = refl
  get-explorers _ = refl

  In-chains : (chain : Chain) → In chain chains
  In-chains ethereum = inl refl
  In-chains base = inr (inl refl)
  In-chains arbitrum = inr (inr (inl refl))
  In-chains polygon = inr (inr (inr (inl refl)))
  In-chains optimism = inr (inr (inr (inr (inl refl))))
  In-chains monad = inr (inr (inr (inr (inr (inl refl)))))

  -- The check of the chain in a run from the state.
  abbrev pub check_at : PersistedState Decimal → Chain → ChainDepositCheck Decimal
  check_at state chain = check_of (pass_of L config w state) chain (w.explorers chain)

  -- A query for the chain fails while it is stale.
  abbrev pub Fails : PersistedState Decimal → Chain → Type 0
  Fails state chain = Trouble L (check_at state chain)

  Reports-iff :
      (state : PersistedState Decimal) (chain : Chain)
      → Reports L (pass_of L config w state) chain ↔ Fails state chain
  Reports-iff state chain = (
    λ (explorer, there, bad).
        let same : explorer ≡ w.explorers chain = cc (there, get-explorers chain) in
        (run_errors_iff L (check_at state chain)).0 (
          subst (λ e. (Scan.run L (check_of (pass_of L config w state) chain e)).0.errors ≢ []) same
            bad),
    λ fails.
        (w.explorers chain, get-explorers chain, (run_errors_iff L (check_at state chain)).1 fails),
  )

  errors_iff :
      (state : PersistedState Decimal)
      → ((Pass.run L (pass_of L config w state) w.liquidations).0 ≢ [])
        ↔ ((chain : Chain) × Fails state chain)
  errors_iff state =
      let p = pass_of L config w state in
      let from = errors-run L p w.liquidations in
      (
        λ h.
            let (chain, _, reports) = discover-Reports L p chains (λ q. h (from ∙ q)) in
            (chain, (Reports-iff state chain).0 reports),
        λ (chain, fails) q.
            Reports-discover L p chains chain (In-chains chain) ((Reports-iff state chain).1 fails)
              (sym from ∙ q),
      )

  messages_iff :
      (state : PersistedState Decimal) (disk : Disk)
      → ((run_from L config w state disk).messages ≢ [])
        ↔ (((save L config w state disk).result ≢ ok tt) ⊎ ((chain : Chain) × Fails state chain))
  messages_iff state disk =
      let found = (Pass.run L (pass_of L config w state) w.liquidations).0 in
      let r = (save L config w state disk).result in
      (
        λ h.
            elim (append-ne-nil_cases found (save_errors r)
              ((error_messages_iff (found ++ save_errors r)).0 h)) [
                | inl bad ↦ inr ((errors_iff state).0 bad)
                | inr unsaved ↦ inl ((save_errors_iff r).0 unsaved)
              ],
        λ causes. (error_messages_iff (found ++ save_errors r)).1 (
            append-ne-nil found (save_errors r) (elim causes [
              | inl unsaved ↦ inr ((save_errors_iff r).1 unsaved)
              | inr bad ↦ inl ((errors_iff state).1 bad)
            ])),
      )

  -- A run that has read its state and has a key sends the user at most one message of its own, and
  -- sends one exactly if the save fails or if, for some chain, a query fails while the chain is
  -- stale.
  pub run_alerts_iff :
      (J : JwtLib) (disk : Disk) (state : PersistedState Decimal)
      (client : Client.LiveCoinbaseClient J.SigningKey)
      → load_state w.serde (read_to_string w.denied config.state_file disk) ≡ ok state
      → client_of L J config ≡ ok client
      → (length (run L config w J disk).messages ≤ 1)
        × (((run L config w J disk).messages ≢ []) ↔ (
            ((save L config w state disk).result ≢ ok tt) ⊎ ((chain : Chain) × Fails state chain)))
  unfolding run
  run_alerts_iff J disk state client reads made =
      rw (reads, made, run) (error_messages-le _, messages_iff state disk)
