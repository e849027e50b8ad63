-- ===== src/Lib.antt =====
-- Cryptosweep detects USDC deposits on several chains and liquidates them through an exchange. An
-- invocation reads its configuration, takes a lock and runs once: it loads the state file, checks
-- every chain for deposits, sends eligible ones to a worker that sells and withdraws, merges what was
-- found into the state, prunes old entries and saves.
--
-- The parts, and the files that model them:
-- * Types (src/types.rs): chains, errors, addresses, deposits, audit records, the persisted state, and
--   the interfaces of the decimal library (DecimalLib) and of a block explorer (BlockExplorer).
-- * Config (src/config.rs): `load` with its validation, the defaults of missing fields and the default
--   paths, `confirmation_blocks_for`, `start_block_for`. Fills is what the fields should be.
-- * Explorer (src/explorer.rs): Chunks is the loop of `fetch_usdc_receives`, Logs is
--   `fetch_receives_chunk` and `u256_to_decimal`, Live is the explorer of one chain and Create its
--   creation, `LiveBlockExplorer::new`. Chunks/Exact and Chunks/Whole say what the loop returns, and
--   Create/Own what is created.
-- * Orchestrator (src/orchestrator.rs): ChainResult is the monoid of results, Scan the check of a
--   chain (`ChainDepositCheck::run`, `address_scan`, `send_if_eligible`), Pass the pass over all
--   chains (`DepositCheck::run`). Scan/Detected and Pass/Detected join the check and the pass with
--   the live explorer, and Pass/Accounted the pass with the worker. Pass/Monotone is about the
--   frontiers from pass to pass, and Pass/Order about the order of the worker's results.
-- * Worker (src/cbworker.rs): Job holds the calls of a job, Liquidate is `liquidate_pipeline` and
--   `liquidate_one`, Pool is `run` with its concurrent jobs, Live puts the live client behind a
--   job's calls.
-- * Coinbase (src/coinbase/): Models holds the requests and responses, Task the effects of the client,
--   Auth the tokens and the key, Client the requests (`send`, `get`, `post`, `find_account`), and
--   Operations `sell_usdc` and `withdraw_usd`. Reads and Amounts say what an answer means, and Signed,
--   Account, Sale and Withdrawal what these ask of the exchange.
-- * Notifier (src/notifier/mod.rs): `TelegramNotifier::new` with the parsing of the chat id, `notify`.
-- * Persistence (src/persistence.rs): File is `load_state` and `save_state`, Prune is
--   `prune_stale_entries`, Lock is `acquire_lock`.
-- * Main (src/main.rs): `run` and `main`, and with the panics of `LiveBlockExplorer::new`
--   `try_run` and `try_main`; Start is `main` from the environment on. Guard lists the
--   ends of an invocation, Kill is about lost runs, Again about one run and the state behind it,
--   History about the invocations that follow, Alert about the messages to the user, Detected about
--   what a run has missed. Processes is the step relation of several invocations on one disk, with
--   Invariant, Sound, Moves and Once about it. WellFormed, here and under Orchestrator and
--   Persistence, is what holds of every state.
-- * Base holds the shared helpers: tests on numbers, equality, lists, maps, sets of texts, decimal
--   digits, parts of texts, and FilePath for what the code uses of `std::path`.
-- * Tests runs the definitions and applies the theorems on concrete inputs.
--
-- How the code is read. Integers are natural numbers, with the saturation of `u64` written out. A
-- moment is a number of nanoseconds since the epoch. Maps are association lists and sets are lists
-- of texts; the laws of Base speak of lookups only. The decimal library is an interface, so the
-- theorems hold for every implementation of it. Explorers answer as functions of their arguments
-- during one run. The channel accepts or refuses a deposit. The worker's jobs are trees of calls whose
-- answers are arbitrary, and its pool is a step relation that covers every interleaving; the pass is
-- stated for every list of results that the worker may return. The exchange's client is a tree of
-- effects (reading the clock, drawing an identifier, sending a request) whose responses are arbitrary;
-- the laws about requests are about the traces of such a tree. A save passes through every disk that
-- a partial write can leave, and from the rename on the new disk stands. `main` takes what its
-- calls of the system answer as arguments. Paths are those of Unix. Where several invocations run,
-- the operating system's lock has at most one holder and is free when its holder has ended; a step
-- takes the lock, reads the state, sends a deposit, or ends the invocation with its save, with an
-- error or by a kill.
--
-- Libraries behind the code are interfaces: JwtLib (JSON text, base64 and the signature scheme), with
-- their documented inverses in JwtReader; ApiSerde (the JSON of the exchange's requests and
-- responses); Serde (that of the state file).
--
-- Fuel. Only the loop over the chunks takes it, one unit for each round; each round moves behind a block,
-- so more rounds than blocks are enough below the last `u64`.
--
-- Not modelled: the transports and their retries, logging, the operating system's lock, the
-- serialized texts, the messenger behind `notify`, and the code that only tests use.
pub mod Base
pub mod Types
pub mod Config
pub mod Explorer
pub mod Notifier
pub mod Orchestrator
pub mod Coinbase
pub mod Worker
pub mod Persistence
pub mod Main
mod Tests
