-- ===== src/Vfs/Retried.antt =====
-- The jLock that follows the retry of an earlier one (src/MemoryWriteAheadVFS.ts).
use memory_write_ahead_vfs.Base.{ℕ, ◌≤◌, false, some, ◌≡◌, ◌⊎◌, refl, inl, inr, arith, ◌==◌, le→leb}
use memory_write_ahead_vfs.Vfs.{
  Isolation, for_read, for_write, Platform, Session, catch, is_main_db, sqlite_lock_shared,
  sqlite_lock_none,
}
use memory_write_ahead_vfs.Vfs.Locking.{
  lock_error, lock_isolated, lock_shared, lock_reserved, j_lock, is_level,
}
use memory_write_ahead_vfs.Vfs.Retry.{
  retry_lock_read_operation, retry_lock_write_operation, retry_upgrade_deferred_write,
}
use memory_write_ahead_vfs.Vfs.Outcomes.{IsDocumented, &&-false, lock_error-refuses}
use memory_write_ahead_vfs.Vfs.Granted.{
  IsGranted, IsRefused, IsSettled, retry_lock_read-IsSettled, retry_lock_write-IsSettled,
  retry_upgrade-IsSettled,
}

module _ {W L : Type 0} (p : Platform W L) where
  pub j_lock-primary :
      (level : ℕ) (s : Session W L) (w : W)
      → s.file.write_ahead ≡ some w
      → j_lock p level s ≡ catch lock_error (lock_isolated p level s)
  unfolding j_lock
  j_lock-primary level s w has = rw (has, &&-false (is_main_db s.file)) refl

  -- The result of a retry decides the next jLock: no further retry is queued.
  shared-decided :
      (mode : Isolation) (s t : Session W L)
      → s.file.lock_state ≡ some sqlite_lock_none
      → IsSettled p mode s t
      → IsGranted p sqlite_lock_shared mode s (j_lock p sqlite_lock_shared t)
        ⊎ IsRefused s (j_lock p sqlite_lock_shared t)
  unfolding lock_isolated lock_shared
  shared-decided mode s t unlocked (((w, has), level, queue), inl (result, isolated)) =
      rw (j_lock-primary 1 t w has, level, unlocked, result)
        (inl (refl, refl, refl, queue, isolated))
  shared-decided mode s t unlocked (((w, has), level, queue), inr (e, result)) =
      rw (j_lock-primary 1 t w has, level, unlocked, result)
        (inr (lock_error-refuses e, refl, refl, queue))

  pub not_shared : (lock_type : ℕ) → 2 ≤ lock_type → (lock_type == 1) ≡ false
  not_shared lock_type high = ground arith

  reserved-decided :
      (lock_type : ℕ) (s t : Session W L)
      → 2 ≤ lock_type
      → IsSettled p for_write s t
      → IsGranted p lock_type for_write s (j_lock p lock_type t)
        ⊎ IsRefused s (j_lock p lock_type t)
  unfolding lock_isolated lock_reserved
  reserved-decided lock_type s t high (keeps, inl (result, (w, has, isolated))) =
      rw
        (
          j_lock-primary lock_type t w has,
          not_shared lock_type high,
          &&-false (is_level t.file.lock_state sqlite_lock_none),
          has,
          result,
          le→leb 2 lock_type high,
          isolated,
        )
        (inl (refl, refl, refl, keeps.2, (w, refl, isolated)))
  reserved-decided lock_type s t high (((w, has), level, queue), inr (e, result)) =
      rw
        (
          j_lock-primary lock_type t w has,
          not_shared lock_type high,
          &&-false (is_level t.file.lock_state sqlite_lock_none),
          has,
          result,
          le→leb 2 lock_type high,
        )
        (inr (lock_error-refuses e, level, refl, queue))

  -- With a write-ahead as documented, a lock for reading of an unlocked file that had to wait is decided
  -- by the next jLock, without a further retry: it has the level SHARED, is isolated for reading and
  -- nothing is left of the retry, or the code is an error, the level is NONE as before and the error has
  -- been taken.
  pub j_lock-retry_read :
      (s : Session W L)
      → IsDocumented p
      → (w : W) → s.file.write_ahead ≡ some w
      → s.file.lock_state ≡ some sqlite_lock_none
      → IsGranted p sqlite_lock_shared for_read s
          (j_lock p sqlite_lock_shared (retry_lock_read_operation p s))
        ⊎ IsRefused s (j_lock p sqlite_lock_shared (retry_lock_read_operation p s))
  j_lock-retry_read s d w has unlocked =
      shared-decided for_read s _ unlocked (retry_lock_read-IsSettled p s d w has)

  -- The same of a lock for writing, with a write hint or in the exclusive locking mode: it is isolated
  -- for writing, or refused.
  pub j_lock-retry_write :
      (s : Session W L)
      → IsDocumented p
      → (w : W) → s.file.write_ahead ≡ some w
      → s.file.lock_state ≡ some sqlite_lock_none
      → IsGranted p sqlite_lock_shared for_write s
          (j_lock p sqlite_lock_shared (retry_lock_write_operation p s))
        ⊎ IsRefused s (j_lock p sqlite_lock_shared (retry_lock_write_operation p s))
  j_lock-retry_write s d w has unlocked =
      shared-decided for_write s _ unlocked (retry_lock_write-IsSettled p s d w has)

  -- With a write-ahead as documented, an upgrade to RESERVED or beyond that had to wait is decided by the
  -- next jLock, without a further retry: the file has the level and is isolated for writing, or the code
  -- is an error and the level is as before.
  pub j_lock-retry_upgrade :
      (lock_type : ℕ) (s : Session W L)
      → IsDocumented p
      → (w : W) → s.file.write_ahead ≡ some w
      → 2 ≤ lock_type
      → IsGranted p lock_type for_write s (j_lock p lock_type (retry_upgrade_deferred_write p s))
        ⊎ IsRefused s (j_lock p lock_type (retry_upgrade_deferred_write p s))
  j_lock-retry_upgrade lock_type s d w has high =
      reserved-decided lock_type s _ high (retry_upgrade-IsSettled p s d w has)
