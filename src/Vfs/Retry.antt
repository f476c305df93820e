-- ===== src/Vfs/Retry.antt =====
-- The operations that the lock handlers queue (src/MemoryWriteAheadVFS.ts): #retryLockRead,
-- #retryLockWrite, #retryLockAttachedDatabase and #retryUpgradeDeferredWrite. Each leaves its result in
-- `retryResult`, an error once it has undone what it had acquired.
use memory_write_ahead_vfs.Base.{
  ℕ, ◌+◌, Bool, true, false, ◌&&◌, ◌||◌, Option, none, some, List, map, pos, pos_part, eqb_ℤ,
  is_positive, leb, Result, ok, err,
}
use memory_write_ahead_vfs.AttachedLock.{
  Attached, Others, Try, RetryResult, acquired, waiting, failed, retry_lock_attached_database,
}
use memory_write_ahead_vfs.Vfs.{
  Timeout, no_timeout, bad_timeout, timeout_ms, VfsError, lock_timed_out, stale_snapshot,
  write_ahead_missing, attached_error, Effect, LockMode, shared, exclusive, Platform, LockingMode,
  exclusive_mode, normal_mode, done, rejected, Session, Action, after, with_retry, put_effect,
  on_write_ahead,
}
use memory_write_ahead_vfs.Vfs.Locking.{
  attached_of, put_attached, put_read_lock, put_write_lock, with_locks,
}

-- A try of #retryLockAttachedDatabase: what the other contexts do between its accesses, the time after
-- it, and what they do during the wait that may follow.
pub record Tick : Type 0 where
  pub within : Others
  pub now : ℕ
  pub during : Others

-- A timeout that is undefined, NaN or negative has no deadline.
abbrev pub has_expired : Timeout → ℕ → ℕ → Bool
has_expired no_timeout start now = false
has_expired bad_timeout start now = false
has_expired (timeout_ms ms) start now =
    eqb_ℤ ms (pos 0) || (is_positive ms && leb (start + pos_part ms) now)

abbrev pub try_of : Timeout → ℕ → Tick → Try
try_of timeout start tick = record {
  within = tick.within;
  is_expired = has_expired timeout start tick.now;
  during = tick.during;
}

module _ {W L : Type 0} where
  -- The `retryResult` of an operation that has ended.
  abbrev pub settle : Result VfsError (Unit {0}) × Session W L → Session W L
  settle (ok _, s) = with_retry done s
  settle (err e, s) = with_retry (rejected e) s

  -- `onError`
  abbrev pub undoing :
      {A : Type 0}
      → (Session W L → Session W L)
      → Result VfsError A × Session W L
      → Result VfsError A × Session W L
  undoing undo (ok a, s) = (ok a, s)
  undoing undo (err e, s) = (err e, undo s)

  -- `if (!(await …)) throw`
  abbrev pub demand : VfsError → Bool → Action W L (Unit {0})
  demand e true s = (ok tt, s)
  demand e false s = (err e, s)

  -- An operation that still waits has left nothing yet.
  abbrev pub settle_attached : Session W L → RetryResult × Attached → Session W L
  settle_attached s (acquired, a) = with_retry done (put_attached a s)
  settle_attached s (failed e, a) = with_retry (rejected (attached_error e)) (put_attached a s)
  settle_attached s (waiting, a) = put_attached a s

  module _ (p : Platform W L) where
    abbrev pub acquire_read : LockMode → Option L → Action W L Bool
    acquire_read mode none s = (ok false, s)
    acquire_read mode (some lock) s = put_read_lock (p.acquire mode s.file.timeout lock) s

    abbrev pub acquire_write : Option L → Action W L Bool
    acquire_write none s = (ok false, s)
    acquire_write (some lock) s = put_write_lock (p.acquire exclusive s.file.timeout lock) s

    abbrev pub release_read : Session W L → Session W L
    release_read s = with_locks (λ l. l) p.release s

    abbrev pub release_write : Session W L → Session W L
    release_write s = with_locks p.release (λ l. l) s

    abbrev pub isolate_then :
        Effect W (Unit {0}) → (Session W L → Session W L) → (Unit {0}) → Action W L (Unit {0})
    isolate_then isolate undo _ s = undoing undo (on_write_ahead tt isolate s.file.write_ahead s)

    unfoldable pub retry_lock_read_operation : Session W L → Session W L
    retry_lock_read_operation s = settle (
        after (after (acquire_read shared s.file.read_lock s) (demand lock_timed_out))
          (isolate_then p.isolate_for_read release_read))

    abbrev pub write_isolated : Action W L (Unit {0})
    write_isolated s =
        after (after (acquire_write s.file.write_lock s) (demand lock_timed_out))
          (isolate_then p.isolate_for_write release_write)

    abbrev pub lock_writer : LockingMode → Action W L (Unit {0})
    lock_writer exclusive_mode s =
        after (after (acquire_read exclusive s.file.read_lock s) (demand lock_timed_out))
          (λ _ t. undoing release_read (write_isolated t))
    lock_writer normal_mode s = write_isolated s

    unfoldable pub retry_lock_write_operation : Session W L → Session W L
    retry_lock_write_operation s = settle (lock_writer s.file.locking_mode s)

    abbrev pub upgrade : Option W → Action W L Bool
    upgrade none s = (err write_ahead_missing, s)
    upgrade (some w) s = put_effect (p.try_upgrade_read_isolation_to_write (w, s.files)) s

    -- The catch block releases the write lock even where it has not been acquired.
    unfoldable pub retry_upgrade_deferred_write : Session W L → Session W L
    retry_upgrade_deferred_write s = settle (
        undoing release_write (
          after (after (acquire_write s.file.write_lock s) (demand lock_timed_out))
            (λ _ t. after (upgrade t.file.write_ahead t) (demand stale_snapshot))))

  -- `releasing` is what the other contexts do between the accesses of the release in the catch block.
  unfoldable pub retry_lock_attached_operation : Others → ℕ → List Tick → Session W L → Session W L
  unfolding retry_lock_attached_database
  retry_lock_attached_operation releasing start ticks s = settle_attached s (
      retry_lock_attached_database releasing (map (try_of s.file.timeout start) ticks)
        (attached_of s))
