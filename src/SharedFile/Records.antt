-- ===== src/SharedFile/Records.antt =====
-- The statistics that the VFS records in a file's metadata (src/memoryWriteAheadSharedRuntime.ts):
-- recordMemoryWriteAheadFileLockWait and recordMemoryWriteAheadCheckpoint. Durations and page counts
-- come in as the whole numbers that Math.round gives, so they may be negative.
use memory_write_ahead_vfs.Base.{ℕ, ◌+◌, ◌≤◌, ◌≡◌, refl, min, ℤ, pos, pos_part, leb, if◌then◌else◌}
use memory_write_ahead_vfs.Counter.{max_int32_atomic_counter, bump}
use memory_write_ahead_vfs.Counter.Laws.{bump-pos}
use memory_write_ahead_vfs.SharedFile.{SharedFile, with_counters}

unfoldable pub record_memory_write_ahead_file_lock_wait : ℕ → ℤ → SharedFile → SharedFile
unfolding bump
record_memory_write_ahead_file_lock_wait wait_count wait_ms f =
    if leb wait_count 0
    then f
    else with_counters
        (λ c. record c {
          lock_wait_count = bump c.lock_wait_count wait_count;
          lock_wait_ms = bump c.lock_wait_ms (pos_part wait_ms);
        })
        f

unfoldable pub record_memory_write_ahead_checkpoint : ℤ → ℤ → SharedFile → SharedFile
unfolding bump
record_memory_write_ahead_checkpoint duration_ms write_ahead_pages f =
    with_counters
      (λ c. record c {
        checkpoint_count = bump c.checkpoint_count 1;
        checkpoint_ms = bump c.checkpoint_ms (pos_part duration_ms);
        checkpoint_write_ahead_pages =
            bump c.checkpoint_write_ahead_pages (pos_part write_ahead_pages);
        last_checkpoint_ms = pos (min max_int32_atomic_counter (pos_part duration_ms));
        last_checkpoint_write_ahead_pages =
            pos (min max_int32_atomic_counter (pos_part write_ahead_pages));
      })
      f

-- The checkpoint statistics of counters that have not been negative: the totals grow by what is
-- recorded and stop at 2^31 - 1, a negative duration or page count counts as 0, and the last
-- values are those recorded, cut off at 2^31 - 1.
pub record_memory_write_ahead_checkpoint-counts :
    (duration_ms write_ahead_pages : ℤ) (f : SharedFile) (count ms pages : ℕ)
    → count ≤ max_int32_atomic_counter
    → ms ≤ max_int32_atomic_counter
    → pages ≤ max_int32_atomic_counter
    → f.meta.counters.checkpoint_count ≡ pos count
    → f.meta.counters.checkpoint_ms ≡ pos ms
    → f.meta.counters.checkpoint_write_ahead_pages ≡ pos pages
    → (let c =
          (record_memory_write_ahead_checkpoint duration_ms write_ahead_pages f).meta.counters in
        (c.checkpoint_count ≡ pos (min max_int32_atomic_counter (count + 1)))
        × (c.checkpoint_ms ≡ pos (min max_int32_atomic_counter (ms + pos_part duration_ms)))
        × (c.checkpoint_write_ahead_pages
            ≡ pos (min max_int32_atomic_counter (pages + pos_part write_ahead_pages)))
        × (c.last_checkpoint_ms ≡ pos (min max_int32_atomic_counter (pos_part duration_ms)))
        × (c.last_checkpoint_write_ahead_pages
            ≡ pos (min max_int32_atomic_counter (pos_part write_ahead_pages))))
unfolding record_memory_write_ahead_checkpoint
record_memory_write_ahead_checkpoint-counts d p f count ms pages hc hm hp ec em ep = (
  rw ec (bump-pos count 1 hc),
  rw em (bump-pos ms (pos_part d) hm),
  rw ep (bump-pos pages (pos_part p) hp),
  refl,
  refl,
)
