-- ===== src/Persistence/Lock.antt =====
-- persistence.rs: the lock that keeps runs apart. Opening the lock file and locking it are the
-- operating system's; the lock is held until the process ends.
use cryptosweep.Types.Error.{IoError, AppError, io, Result, ok, err}

-- `?` on the answers of `OpenOptions::open` and `try_lock_exclusive`.
unfoldable pub acquire_lock :
    Result (Unit {0}) IoError → Result (Unit {0}) IoError → Result (Unit {0}) AppError
acquire_lock (err e) try_lock_exclusive = err (io e)
acquire_lock (ok _) (err e) = err (io e)
acquire_lock (ok _) (ok _) = ok tt
