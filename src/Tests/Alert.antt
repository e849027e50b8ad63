-- ===== src/Tests/Alert.antt =====
-- main.rs on concrete inputs: a run whose explorers are down for most of the chains.
use cryptosweep.Base.{◌≡◌, ◌≢◌, ◌↔◌, ◌⊎◌, ◌≤◌, refl, inl, inr, none, [], length, nat_eq}
use cryptosweep.Base.Dict
use cryptosweep.Types.Chain.{Chain, base, chain_eq}
use cryptosweep.Types.Error.{ok}
use cryptosweep.Types.State.{empty_state}
use cryptosweep.Coinbase.Auth.{parse_pem_key}
use cryptosweep.Coinbase.Client
use cryptosweep.Orchestrator.Scan.{is_chain_stale}
use cryptosweep.Orchestrator.Scan.Errors.{no_height}
use cryptosweep.Main.{save, run}
use cryptosweep.Main.Kill.{client_of}
use cryptosweep.Main.Alert.{Fails, run_alerts_iff}
use cryptosweep.Tests.Encoding.{jwt}
use cryptosweep.Tests.Fixtures.{micro}
use cryptosweep.Tests.Invocation.{two_addresses, world, unavailable, first_reads}

abbrev client : Client.LiveCoinbaseClient jwt.SigningKey
client = record { api_key = ""; signing_key = ""; usdc_account_id = none; usd_account_id = none }

has_client : client_of micro jwt two_addresses ≡ ok client
unfolding Client.new parse_pem_key
has_client = refl

run_alerts_iff_example :
    (length (run micro two_addresses (world 1000) jwt []).messages ≤ 1)
    × (((run micro two_addresses (world 1000) jwt []).messages ≢ []) ↔ (
        ((save micro two_addresses (world 1000) empty_state []).result ≢ ok tt)
        ⊎ ((chain : Chain) × Fails micro two_addresses (world 1000) empty_state chain)))
run_alerts_iff_example =
    run_alerts_iff micro two_addresses (world 1000) jwt [] empty_state client first_reads has_client

base-Fails : Fails micro two_addresses (world 1000) empty_state base
unfolding is_chain_stale Dict.get
base-Fails = no_height unavailable (inl refl) refl

alerts : (run micro two_addresses (world 1000) jwt []).messages ≢ []
alerts = run_alerts_iff_example.1.1 (inr (base, base-Fails))
