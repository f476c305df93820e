-- ===== src/Vfs/Protocol.antt =====
-- The lock protocol of a primary database's file (src/MemoryWriteAheadVFS.ts): the calls that SQLite makes
-- of jLock and jUnlock, and the operations that jLock queues, as steps of a session. SQLite asks for
-- SHARED of an unlocked file and for more of one that has SHARED; a queued operation is run before the
-- next jLock.
pub mod Shared
pub mod Beyond
pub mod Operations
pub mod Unlocked
pub mod Safety
use memory_write_ahead_vfs.Base.{
  ℕ, ◌≤◌, true, Option, none, some, List, [], ◌∷◌, ◌≡◌, ◌≢◌, ◌⊎◌, inl, ok, refl, arith,
}
use memory_write_ahead_vfs.SharedFile.{SharedFile}
use memory_write_ahead_vfs.Vfs.{
  Isolation, for_write, Platform, RetryState, no_result, done, Operation, retry_lock_read,
  retry_lock_write, retry_upgrade, Session, sqlite_ok, sqlite_lock_none, sqlite_lock_shared,
}
use memory_write_ahead_vfs.Vfs.Locking.{j_lock, j_unlock}
use memory_write_ahead_vfs.Vfs.Retry.{
  retry_lock_read_operation, retry_lock_write_operation, retry_upgrade_deferred_write,
}
use memory_write_ahead_vfs.Vfs.Requests.{retry_of}

module _ {W L : Type 0} (p : Platform W L) where
  abbrev pub taken : Session W L → Session W L
  taken s = record s { queue = [] }

  pub data Step (s : Session W L) : Session W L → Type 0 where
    locks_shared :
        s.file.lock_state ≡ some sqlite_lock_none
        → s.queue ≡ []
        → Step s (j_lock p sqlite_lock_shared s).1
    locks_beyond :
        (level lock_type : ℕ)
        → s.file.lock_state ≡ some level
        → 1 ≤ level
        → 2 ≤ lock_type
        → s.queue ≡ []
        → Step s (j_lock p lock_type s).1
    -- an unlock that throws ends the run
    unlocks :
        (j_unlock p sqlite_lock_none s).0 ≡ sqlite_ok → Step s (j_unlock p sqlite_lock_none s).1
    downgrades :
        (level : ℕ)
        → s.file.lock_state ≡ some level
        → 1 ≤ level
        → Step s (j_unlock p sqlite_lock_shared s).1
    runs_read : s.queue ≡ retry_lock_read ∷ [] → Step s (retry_lock_read_operation p (taken s))
    runs_write : s.queue ≡ retry_lock_write ∷ [] → Step s (retry_lock_write_operation p (taken s))
    runs_upgrade : s.queue ≡ retry_upgrade ∷ [] → Step s (retry_upgrade_deferred_write p (taken s))

  pub data Run (s : Session W L) : Session W L → Type 0 where
    starts : Run s s
    goes_on : {t u : Session W L} → Run s t → Step t u → Run s u

  -- An upgrade that does not return true leaves the isolation as it is.
  pub record IsSteady : Type 0 where
    pub stays :
        (w : W × List SharedFile)
        → (p.try_upgrade_read_isolation_to_write w).0 ≢ ok true
        → p.isolation_state (p.try_upgrade_read_isolation_to_write w).1.0 ≡ p.isolation_state w.0

  -- A file that SQLite takes to be at the level: under SHARED its view is isolated, under RESERVED and
  -- beyond for writing; a result that a retry has left stands for an isolation; and at most one
  -- operation is queued, of an unlocked file unless it is an upgrade.
  pub record Protected (s : Session W L) : Type 0 where
    pub ahead : W
    pub has : s.file.write_ahead ≡ some ahead
    pub level : ℕ
    pub at_level : s.file.lock_state ≡ some level
    pub reads : 1 ≤ level → p.isolation_state ahead ≢ none
    pub writes : 2 ≤ level → p.isolation_state ahead ≡ some for_write
    pub result : s.file.retry_result ≡ done → s.queue ≡ [] → p.isolation_state ahead ≢ none
    pub waiting :
        (s.queue ≡ [])
        ⊎ (s.queue ≡ retry_upgrade ∷ [])
        ⊎ ((level ≡ 0) × ((mode : Isolation) × (s.queue ≡ retry_of mode ∷ [])))
