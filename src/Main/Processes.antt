-- ===== src/Main/Processes.antt =====
-- main.rs: several invocations of the program at a time, on one disk. The operating system's lock
-- has at most one holder, and is released when its process ends, however it ends; so no other process
-- reads the state file between a holder's steps, and a save counts as one step.
pub mod Invariant
pub mod Sound
pub mod Moves
pub mod Once
use cryptosweep.Base.{
  ◌≡◌, String, ℕ, Option, none, some, List, [], ◌∷◌, In, ◌==◌, nat_eq, if◌then◌else◌,
}
use cryptosweep.Types.Decimal.{DecimalLib}
use cryptosweep.Types.Error.{AppError, ok, err}
use cryptosweep.Types.State.{PersistedState, EligibleDeposit}
use cryptosweep.Config.{CryptoSweepConfig}
use cryptosweep.Orchestrator.Pass.{sent_deposits}
use cryptosweep.Persistence.File.{Disk, read_to_string, load_state}
use cryptosweep.Main.{World, pass_of, save}
use cryptosweep.Main.Again.{NotPruned}

-- How far an invocation is: it has not begun; it holds the lock; it has read the state; or it has
-- ended: having saved, without having sent anything, or having lost what it did.
pub data Phase (D : Type 0) : Type 0 where
  idle locked : Phase D
  running : PersistedState D → Phase D
  saved stopped lost : Phase D

-- The invocations by number, the holder of the lock, the disk, and what was sent by whom.
pub record System (D : Type 0) : Type 0 where
  pub phase : ℕ → Phase D
  pub holder : Option ℕ
  pub disk : Disk
  pub log : List (ℕ × EligibleDeposit D)

abbrev pub set_phase : {D : Type 0} → ℕ → Phase D → (ℕ → Phase D) → ℕ → Phase D
set_phase i p phase j = if j == i then p else phase j

abbrev pub at_rest : {D : Type 0} → Disk → System D
at_rest disk = record { phase = λ i. idle; holder = none; disk = disk; log = [] }

-- `w i` is what invocation `i` meets. No save prunes the hash.
module _ (L : DecimalLib) (config : CryptoSweepConfig L.Decimal) (w : ℕ → World L.Decimal)
    (h : String) where
  open L use {Decimal}

  pub data Step (s : System Decimal) : System Decimal → Type 0 where
    takes_lock :
        (i : ℕ)
        → s.phase i ≡ idle
        → s.holder ≡ none
        → Step s (record s { phase = set_phase i locked s.phase; holder = some i })
    is_locked_out :
        (i j : ℕ)
        → s.phase i ≡ idle
        → s.holder ≡ some j
        → Step s (record s { phase = set_phase i stopped s.phase })
    -- the configuration or the chat id is refused
    gives_up :
        (i : ℕ) → s.phase i ≡ idle → Step s (record s { phase = set_phase i stopped s.phase })
    loads :
        (i : ℕ) (state : PersistedState Decimal)
        → s.phase i ≡ locked
        → load_state (w i).serde (read_to_string (w i).denied config.state_file s.disk) ≡ ok state
        → Step s (record s { phase = set_phase i (running state) s.phase })
    -- the state or the key cannot be read, or the process is killed before
    stops :
        (i : ℕ)
        → s.phase i ≡ locked
        → Step s (record s { phase = set_phase i stopped s.phase; holder = none })
    sends :
        (i : ℕ) (state : PersistedState Decimal) (d : EligibleDeposit Decimal)
        → s.phase i ≡ running state
        → In d (sent_deposits L (pass_of L config (w i) state))
        → Step s (record s { log = (i, d) ∷ s.log })
    saves :
        (i : ℕ) (state : PersistedState Decimal)
        → s.phase i ≡ running state
        → (save L config (w i) state s.disk).result ≡ ok tt
        → NotPruned L config (w i) state h
        → Step s (record s {
          phase = set_phase i saved s.phase;
          holder = none;
          disk = (save L config (w i) state s.disk).disk;
        })
    fails_to_save :
        (i : ℕ) (state : PersistedState Decimal) (e : AppError)
        → s.phase i ≡ running state
        → (save L config (w i) state s.disk).result ≡ err e
        → Step s (record s {
          phase = set_phase i lost s.phase;
          holder = none;
          disk = (save L config (w i) state s.disk).disk;
        })
    -- before the rename; behind it the state is saved, and that is `saves`
    is_killed :
        (i : ℕ) (state : PersistedState Decimal) (d : Disk)
        → s.phase i ≡ running state
        → In d (save L config (w i) state s.disk).before_rename
        → Step s (record s { phase = set_phase i lost s.phase; holder = none; disk = d })

  pub data Reach (s : System Decimal) : System Decimal → Type 0 where
    here : Reach s s
    next : {t u : System Decimal} → Reach s t → Step t u → Reach s u
