-- ===== src/Vfs/Rejections.antt =====
-- The error that a retry has left (src/MemoryWriteAheadVFS.ts): what jLock makes of it.
use mathlib.Core.Path.{subst}
use memory_write_ahead_vfs.Base.{
  ◌⊎◌, sym, false, none, List, map, ℕ, true, some, ◌≡◌, refl, Bool-cases, inl, inr, if◌then◌else◌,
}
use memory_write_ahead_vfs.SharedFile.{TransactionWords}
use memory_write_ahead_vfs.AttachedLock.{
  AttachedFile, AttachedError, missing_lock_state, quarantined, lost_claim, timed_out, Attached,
  Others, RetryResult, try_lock_attached_database, with_held,
}
use memory_write_ahead_vfs.AttachedLock.Laws.{
  IsReady, Fails, Ended, has_lock, has_failed, has_deadline, retry_lock-Ended,
}
use memory_write_ahead_vfs.Vfs.Retry.{Tick, try_of, settle_attached, retry_lock_attached_operation}
use memory_write_ahead_vfs.Vfs.{
  attached_error, done, sqlite_ok, catch, VfsError, is_busy, Platform, rejected, no_result, Session,
  is_main_db, with_retry, sqlite_busy, sqlite_ioerr_lock, sqlite_lock_none, sqlite_lock_shared,
}
use memory_write_ahead_vfs.Vfs.Locking.{
  grant, attached_of, put_attached, try_attached, j_lock, is_absent, lock_attached, lock_isolated,
  lock_shared, lock_error,
}

module _ {W L : Type 0} (p : Platform W L) where
  abbrev thrown : VfsError → Session W L → ℕ × Session W L
  thrown e s = (lock_error e, record (with_retry no_result s) { last_error = some e })

  -- An error that the retry of a lock has left is thrown by the next request for SHARED of an unlocked
  -- database, attached or primary, and once.
  pub j_lock-rejected :
      (e : VfsError) (s : Session W L)
      → is_main_db s.file ≡ true
      → s.file.lock_state ≡ some sqlite_lock_none
      → s.file.retry_result ≡ rejected e
      → j_lock p sqlite_lock_shared s ≡ (
        if is_busy e then sqlite_busy else sqlite_ioerr_lock,
        record s { file = record (s.file) { retry_result = no_result }; last_error = some e },
      )
  unfolding j_lock lock_attached lock_isolated lock_shared
  j_lock-rejected e s main unlocked left = elim (Bool-cases (is_absent s.file.write_ahead)) [
    | inl a ↦ rw (main, a, unlocked, left) refl
    | inr a ↦ rw (main, a, unlocked, left) refl
  ]

  -- A database that is not locked, and has no result of a retry.
  abbrev IsUnheld : Session W L → Type 0
  IsUnheld t =
      (t.file.lock_state ≡ some sqlite_lock_none)
      × (t.file.attached_transaction_lock_held ≡ false)
      × (t.file.retry_result ≡ no_result)

  -- The outcomes of jLock after the retry: granted, busy, or a claim that was lost.
  abbrev pub Answers : Session W L → ℕ × Session W L → Type 0
  Answers s out =
      (out.1.queue ≡ s.queue)
      × (((out.0 ≡ sqlite_ok)
            × (out.1.file.lock_state ≡ some sqlite_lock_shared)
            × (out.1.file.attached_transaction_lock_held ≡ true)
            × (out.1.file.retry_result ≡ no_result))
          ⊎ ((out.0 ≡ sqlite_busy)
              × ((out.1.last_error ≡ some (attached_error timed_out))
                  ⊎ (out.1.last_error ≡ some (attached_error quarantined)))
              × IsUnheld out.1)
          ⊎ ((out.0 ≡ sqlite_ioerr_lock)
              × (out.1.last_error ≡ some (attached_error lost_claim))
              × IsUnheld out.1))

  Fails-Answers :
      (e : AttachedError) (f : AttachedFile) (w : TransactionWords) (s : Session W L)
      → Fails e f w
      → s.file.lock_state ≡ some sqlite_lock_none
      → (attached_of s).file.attached_transaction_lock_held ≡ false
      → Answers s (
        if is_busy (attached_error e) then sqlite_busy else sqlite_ioerr_lock,
        record s {
          file = record (s.file) { retry_result = no_result };
          last_error = some (attached_error e);
        },
      )
  unfolding is_busy
  Fails-Answers timed_out f w s fails unlocked free =
      (refl, inr (inl (refl, inl refl, (unlocked, free, refl))))
  Fails-Answers quarantined f w s fails unlocked free =
      (refl, inr (inl (refl, inr refl, (unlocked, free, refl))))
  Fails-Answers lost_claim f w s fails unlocked free =
      (refl, inr (inr (refl, refl, (unlocked, free, refl))))
  Fails-Answers missing_lock_state f w s fails unlocked free = absurd fails

  settle_attached-Answers :
      (s : Session W L) (out : RetryResult × Attached)
      → is_main_db s.file ≡ true
      → s.file.write_ahead ≡ none
      → s.file.lock_state ≡ some sqlite_lock_none
      → (attached_of s).file.attached_transaction_lock_held ≡ false
      → Ended (attached_of s).file out
      → Answers s (j_lock p sqlite_lock_shared (settle_attached s out))
  unfolding j_lock lock_attached try_attached try_lock_attached_database
  settle_attached-Answers s _ main no_ahead unlocked free (has_lock w own) =
      let a : Attached = record { file = with_held true (attached_of s).file; words = w } in
      let t : Session W L = with_retry done (put_attached a s) in
      let run : j_lock p sqlite_lock_shared t
          ≡ catch lock_error (grant sqlite_lock_shared (put_attached (attached_of t) t)) =
        rw (main, no_ahead, unlocked) refl in
      subst (λ out. Answers s out) (sym run) (refl, inl (refl, refl, refl, refl))
  settle_attached-Answers s _ main no_ahead unlocked free (has_failed e w fails) =
      let a : Attached = record { file = (attached_of s).file; words = w } in
      let t : Session W L = with_retry (rejected (attached_error e)) (put_attached a s) in
      subst (λ out. Answers s out) (sym (j_lock-rejected (attached_error e) t main unlocked refl))
        (Fails-Answers e (attached_of s).file w t fails unlocked free)

  -- The lock of an attached database that had to wait: once its time is up after some try, the next request
  -- for SHARED is decided, whatever other contexts do during the waits and between the accesses of the tries.
  -- It is granted and the file holds the transaction lock; or it is BUSY, because the time was up or the
  -- file is quarantined; or IOERR_LOCK, because the claim was lost. The error is the last one then, the
  -- file is unlocked and does not hold the lock, and nothing is left of the retry or queued anew.
  pub j_lock-retry_attached :
      (releasing : Others) (start : ℕ) (ticks : List Tick) (s : Session W L)
      → is_main_db s.file ≡ true
      → s.file.write_ahead ≡ none
      → s.file.lock_state ≡ some sqlite_lock_none
      → IsReady (attached_of s).file
      → has_deadline (map (try_of s.file.timeout start) ticks) ≡ true
      → Answers s
          (j_lock p sqlite_lock_shared (retry_lock_attached_operation releasing start ticks s))
  unfolding retry_lock_attached_operation
  j_lock-retry_attached releasing start ticks s main no_ahead unlocked ready up =
      settle_attached-Answers s _ main no_ahead unlocked (ready.0) (
        retry_lock-Ended releasing (map (try_of s.file.timeout start) ticks) (attached_of s).file
          (attached_of s).words ready up)
