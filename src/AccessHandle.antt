-- ===== src/AccessHandle.antt =====
-- The access handle of a shared file (src/MemoryWriteAheadVFS.ts): SABMemoryAccessHandle, which
-- brackets the writes and truncations of the file by its lock and counts as an open handle of the
-- runtime. `acquire` is what acquireMemoryWriteAheadFileLock makes of the lock's slots.
pub mod Laws
mod Tests
use memory_write_ahead_vfs.Base.{
  ℕ, Bool, true, false, ◌&&◌, List, length, ℤ, pos, eqb_ℤ, if◌then◌else◌, Result, ok, err,
}
use memory_write_ahead_vfs.SharedFile.{
  LockWords, SharedFile, FileError, Call, Progress, with_words, get_file_size_bytes,
}
use memory_write_ahead_vfs.SharedFile.Transfer.{
  Reading, read_memory_write_ahead_file, write_memory_write_ahead_file,
  truncate_memory_write_ahead_file,
}
use memory_write_ahead_vfs.SharedFile.Records.{record_memory_write_ahead_file_lock_wait}
use memory_write_ahead_vfs.FileLock.{owner_word, with_lock, with_beat}
use memory_write_ahead_vfs.Lease.{Context}
use memory_write_ahead_vfs.Lease.Operations.{release_memory_write_ahead_runtime_handle}

-- What an acquisition returns, and the lock's slots then.
pub record Acquisition : Type 0 where
  pub wait_count : ℕ
  pub wait_ms : ℤ
  pub words : LockWords

-- One call of the refresh, with the clock at `now`.
unfoldable pub refresh_memory_write_ahead_file_lock_heartbeat : ℕ → ℕ → Progress
refresh_memory_write_ahead_file_lock_heartbeat owner now w =
    if eqb_ℤ w.lock (owner_word owner) && eqb_ℤ w.lock_owner (owner_word owner)
    then with_beat now w
    else w

unfoldable pub release_memory_write_ahead_file_lock : ℕ → Progress
release_memory_write_ahead_file_lock owner w =
    if eqb_ℤ w.lock (owner_word owner) then with_lock (pos 0) w else w

-- The lock's slots are the acquisition's, and the waits are recorded.
unfoldable pub enter : (LockWords → Acquisition) → SharedFile → SharedFile
unfolding record_memory_write_ahead_file_lock_wait
enter acquire f =
    let a = acquire f.meta.words in
    record_memory_write_ahead_file_lock_wait a.wait_count a.wait_ms (with_words (λ w. a.words) f)

-- The `finally` releases whether the operation has returned or thrown.
unfoldable pub with_file_lock :
    {A : Type 0} → ℕ → ℕ → (LockWords → Acquisition) → (Progress → Call A) → Call A
unfolding enter release_memory_write_ahead_file_lock refresh_memory_write_ahead_file_lock_heartbeat
with_file_lock owner now acquire operation f =
    let out =
      operation (refresh_memory_write_ahead_file_lock_heartbeat owner now) (enter acquire f) in
    (out.0, with_words (release_memory_write_ahead_file_lock owner) out.1)

abbrev pub all_of : List ℕ → Result FileError ℕ → Result FileError ℕ
all_of source (err e) = err e
all_of source (ok n) = ok (length source)

unfoldable pub write_handle : ℕ → ℕ → (LockWords → Acquisition) → List ℕ → ℕ → Call ℕ
unfolding with_file_lock write_memory_write_ahead_file
write_handle owner now acquire source offset f =
    let out =
      with_file_lock owner now acquire
        (λ refresh. write_memory_write_ahead_file refresh source offset) f in
    (all_of source out.0, out.1)

unfoldable pub truncate_handle : ℕ → ℕ → (LockWords → Acquisition) → ℕ → Call (Unit {0})
unfolding with_file_lock truncate_memory_write_ahead_file
truncate_handle owner now acquire size f =
    with_file_lock owner now acquire (λ refresh. truncate_memory_write_ahead_file refresh size) f

unfoldable pub read_handle : SharedFile → List ℕ → ℕ → Result FileError Reading
unfolding read_memory_write_ahead_file
read_handle f buffer offset = read_memory_write_ahead_file f buffer offset

unfoldable pub handle_size : SharedFile → ℕ
unfolding get_file_size_bytes
handle_size f = get_file_size_bytes f

-- Whether the handle is closed, and the context.
unfoldable pub close_handle : ℕ → Bool × Context → Bool × Context
unfolding release_memory_write_ahead_runtime_handle
close_handle now (true, c) = (true, c)
close_handle now (false, c) = (true, release_memory_write_ahead_runtime_handle now c)
