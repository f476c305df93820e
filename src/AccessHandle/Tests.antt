-- ===== src/AccessHandle/Tests.antt =====
-- A handle on a small file, and the theorems on it.
use memory_write_ahead_vfs.Base.{
  ℕ, ◌+◌, ◌-◌, ◌≡◌, refl, arith, ◌&&◌, pos, max, leb, ltb, get_or, if◌then◌else◌, ok,
}
use memory_write_ahead_vfs.SharedFile.{LockWords}
use memory_write_ahead_vfs.SharedFile.Invariant.{IsWellFormed, byte_at}
use memory_write_ahead_vfs.SharedFile.LockKept.{lock_of}
use memory_write_ahead_vfs.SharedFile.Tests.{small_file, small_file-IsWellFormed, six}
use memory_write_ahead_vfs.FileLock.{owner_word}
use memory_write_ahead_vfs.AccessHandle.{Acquisition, write_handle}
use memory_write_ahead_vfs.AccessHandle.Laws.{write_handle-writes}

-- The lock is had after one wait.
abbrev wait_once : LockWords → Acquisition
wait_once w = record {
  wait_count = 1;
  wait_ms = pos 3;
  words = record w { lock = owner_word 7; lock_owner = owner_word 7; lock_heartbeat_ms = pos 9 };
}

write_handle-writes_example :
    let out = write_handle 7 10 wait_once six 3 small_file in
    (out.0 ≡ ok 6)
    × (lock_of out.1 ≡ pos 0)
    × IsWellFormed out.1
    × (out.1.meta.size ≡ max 0 (3 + 6))
    × ((i : ℕ)
        → byte_at out.1 i
          ≡ (if leb 3 i && ltb i (3 + 6) then get_or six (i - 3) 0 else byte_at small_file i))
write_handle-writes_example =
    write_handle-writes 7 10 wait_once six 3 (λ w. refl) small_file-IsWellFormed (omega arith)
