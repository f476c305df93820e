-- ===== src/Vfs/Handlers.antt =====
-- The handlers by file id, and the running of what they queue (src/MemoryWriteAheadVFS.ts).
use memory_write_ahead_vfs.Base.{ℕ, ◌+◌, none, List, ℤ, Result}
use memory_write_ahead_vfs.Vfs.{
  VfsError, Platform, OpenFile, Operation, retry_lock_read, retry_lock_write, retry_lock_attached,
  retry_upgrade, retry_open, pending_checkpoint, Session, sqlite_ok, sqlite_ioerr,
  sqlite_ioerr_read, sqlite_ioerr_write, sqlite_ioerr_truncate, sqlite_ioerr_fsync,
  sqlite_ioerr_fstat, sqlite_ioerr_lock, sqlite_ioerr_unlock,
}
use memory_write_ahead_vfs.Vfs.Locking.{j_lock, j_unlock}
use memory_write_ahead_vfs.Vfs.Retry.{
  Tick, retry_lock_read_operation, retry_lock_write_operation, retry_lock_attached_operation,
  retry_upgrade_deferred_write,
}
use memory_write_ahead_vfs.Vfs.Io.{FileLocking, j_read, j_write, j_truncate, j_sync, j_file_size}
use memory_write_ahead_vfs.Vfs.Control.{FileControl, Answered, j_file_control}
use memory_write_ahead_vfs.Vfs.Checkpoint.{pending_checkpoint_operation}
use memory_write_ahead_vfs.Vfs.Files.{
  Vfs, on_file, get_memory_write_ahead_file, session_of, put_session,
}
use memory_write_ahead_vfs.Vfs.OpenRetry.{System, normalized, retry_open_operation}

module _ {W L : Type 0} (p : Platform W L) where
  unfoldable pub handle_lock : ℕ → ℕ → Vfs W L → ℕ × Vfs W L
  unfolding on_file j_lock
  handle_lock file_id lock_type = on_file sqlite_ioerr_lock (j_lock p lock_type) file_id

  unfoldable pub handle_unlock : ℕ → ℕ → Vfs W L → ℕ × Vfs W L
  unfolding on_file j_unlock
  handle_unlock file_id lock_type = on_file sqlite_ioerr_unlock (j_unlock p lock_type) file_id

  abbrev read_answer : ℕ × List ℕ × Session W L → (ℕ × List ℕ) × Session W L
  read_answer (code, buffer, s) = ((code, buffer), s)

  -- The code, and the caller's buffer then.
  unfoldable pub handle_read : ℕ → List ℕ → ℕ → Vfs W L → (ℕ × List ℕ) × Vfs W L
  unfolding on_file j_read
  handle_read file_id buffer i_offset =
      on_file (sqlite_ioerr_read, buffer) (λ s. read_answer (j_read p i_offset buffer s)) file_id

  unfoldable pub handle_write : FileLocking → ℕ → List ℕ → ℕ → Vfs W L → ℕ × Vfs W L
  unfolding on_file j_write
  handle_write k file_id source i_offset =
      on_file sqlite_ioerr_write (j_write k p i_offset source) file_id

  unfoldable pub handle_truncate : FileLocking → ℕ → ℕ → Vfs W L → ℕ × Vfs W L
  unfolding on_file j_truncate
  handle_truncate k file_id i_size = on_file sqlite_ioerr_truncate (j_truncate k p i_size) file_id

  unfoldable pub handle_sync : ℕ → Vfs W L → ℕ × Vfs W L
  unfolding on_file j_sync
  handle_sync file_id = on_file sqlite_ioerr_fsync (j_sync p) file_id

  unfoldable pub handle_file_size : ℕ → Vfs W L → (ℕ × ℕ) × Vfs W L
  unfolding on_file j_file_size
  handle_file_size file_id = on_file (sqlite_ioerr_fstat, 0) (λ s. (j_file_size p s, s)) file_id

  unfoldable pub handle_file_control : ℕ → FileControl → Vfs W L → Answered × Vfs W L
  unfolding on_file j_file_control
  handle_file_control file_id op = on_file (sqlite_ioerr, none) (j_file_control p op) file_id

  -- The code, and the answer that no lock is reserved.
  unfoldable pub j_check_reserved_lock : ℕ × ℕ
  j_check_reserved_lock = (sqlite_ok, 0)

  -- SQLITE_IOCAP_UNDELETABLE_WHEN_OPEN and SQLITE_IOCAP_BATCH_ATOMIC.
  unfoldable pub j_device_characteristics : ℕ
  j_device_characteristics = 2048 + 16384

  -- What an operation that is run has around it: the system, the tries of a transaction lock with the time
  -- of the first, and the milliseconds of a checkpoint.
  pub record Run : Type 0 where
    pub system : System
    pub start : ℕ
    pub ticks : List Tick
    pub elapsed : ℤ

  abbrev on_session : ℕ → (Session W L → Session W L) → OpenFile W L → Vfs W L → Vfs W L
  on_session i g f v = put_session i (g (session_of f v)) v

  -- The error of a checkpoint is the rejection of its promise, which no handler sees.
  abbrev settled : Result VfsError (Unit {0}) × Session W L → Session W L
  settled out = out.1

  unfoldable pub run_operation : Run → ℕ → Operation → OpenFile W L → Vfs W L → Vfs W L
  unfolding retry_lock_read_operation retry_lock_write_operation retry_lock_attached_operation
      retry_upgrade_deferred_write retry_open_operation pending_checkpoint_operation
      get_memory_write_ahead_file
  run_operation r i retry_lock_read f v = on_session i (retry_lock_read_operation p) f v
  run_operation r i retry_lock_write f v = on_session i (retry_lock_write_operation p) f v
  run_operation r i retry_lock_attached f v =
      on_session i (retry_lock_attached_operation p.meanwhile r.start r.ticks) f v
  run_operation r i retry_upgrade f v = on_session i (retry_upgrade_deferred_write p) f v
  run_operation r i retry_open f v = retry_open_operation p r.system i f.z_name v
  run_operation r i (pending_checkpoint is_passive) f v =
      on_session i
        (λ s. settled (
          pending_checkpoint_operation p is_passive r.elapsed
            (get_memory_write_ahead_file (normalized r.system) f.z_name v) s))
        f v
