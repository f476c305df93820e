-- ===== src/SharedFile.antt =====
-- A segmented shared file of src/memoryWriteAheadSharedRuntime.ts: its segments, the `Int32Array`
-- slots of its metadata (MEMORY_WRITE_AHEAD_FILE_META, one field a slot) and its capacities.
-- Byte arrays are lists of numbers. The slots that hold a size or a segment count are natural
-- numbers: what is stored there is never above the file's capacity. The others are integers.
pub mod Capacity
pub mod Create
pub mod Transfer
pub mod Records
mod Arith
pub mod Activate
pub mod Desired
pub mod Ensure
pub mod Offsets
pub mod Reads
pub mod Store
pub mod Writes
pub mod WriteFile
pub mod WriteLaws
pub mod NewFile
pub mod Truncate
pub mod LockKept
pub mod Invariant
pub mod Growth
pub mod Tests
use Prim.Native.String.{String}
use memory_write_ahead_vfs.Base.{
  Result, ℕ, suc, ◌+◌, ◌-◌, ◌*◌, ◌/◌, Bool, true, false, Option, none, some, List, [], ◌∷◌, ℤ, pos,
  max, min, length, get_elem?, take, set,
}
use memory_write_ahead_vfs.Counter.{bump, raise_to}

pub data CapacityMode : Type 0 where
  growable fixed : CapacityMode

-- MemoryWriteAheadSharedSegment; the byte length of its buffer is `length contents`.
pub record Segment : Type 0 where
  pub capacity_mode : CapacityMode
  pub contents : List ℕ
  pub max_capacity_bytes : ℕ

-- The slots of the file lock.
pub record LockWords : Type 0 where
  pub lock : ℤ
  pub lock_owner : ℤ
  pub lock_heartbeat_ms : ℤ
  pub recovered_abandoned_lock_count : ℤ

-- The slots of an attached database's transaction lock.
pub record TransactionWords : Type 0 where
  pub transaction_lock : ℤ
  pub transaction_lock_runtime_owner : ℤ
  pub abandoned_transaction : ℤ

pub record Counters : Type 0 where
  pub reclaimed_segment_count : ℤ
  pub reclaimed_bytes : ℤ
  pub peak_logical_size_bytes : ℤ
  pub peak_capacity_bytes : ℤ
  pub peak_allocated_capacity_bytes : ℤ
  pub write_operation_count : ℤ
  pub written_bytes : ℤ
  pub truncate_operation_count : ℤ
  pub lock_wait_count : ℤ
  pub lock_wait_ms : ℤ
  pub checkpoint_count : ℤ
  pub checkpoint_ms : ℤ
  pub checkpoint_write_ahead_pages : ℤ
  pub last_checkpoint_ms : ℤ
  pub last_checkpoint_write_ahead_pages : ℤ

pub record FileMeta : Type 0 where
  pub words : LockWords
  pub size : ℕ
  pub active_segment_count : ℕ
  pub counters : Counters
  pub transaction : TransactionWords

-- MemoryWriteAheadSharedFile
pub record SharedFile : Type 0 where
  pub db_filename : String
  pub max_capacity_bytes : ℕ
  pub meta : FileMeta
  pub pathname : String
  pub segment_capacity_bytes : ℕ
  pub segments : List Segment

-- What a call may throw; `spins` stands for a loop that would not end.
pub data FileError : Type 0 where
  capacity_exceeded segment_capacity_exceeded fixed_segment_cannot_grow : FileError
  segment_catalog_exhausted no_segmented_storage spins : FileError

-- A call on a file: it returns or throws, and what it has changed by then stays changed.
abbrev pub Call : Type 0 → Type 0
Call A = SharedFile → Result FileError A × SharedFile

-- `onProgress`: it refreshes the heartbeat of the file lock, so it acts on the lock's slots alone.
abbrev pub Progress : Type 0
Progress = LockWords → LockWords

abbrev pub min_segment_count : ℕ
min_segment_count = 1

abbrev pub no_lock : LockWords
no_lock = record {
  lock = pos 0;
  lock_owner = pos 0;
  lock_heartbeat_ms = pos 0;
  recovered_abandoned_lock_count = pos 0;
}

abbrev pub no_transaction : TransactionWords
no_transaction = record {
  transaction_lock = pos 0;
  transaction_lock_runtime_owner = pos 0;
  abandoned_transaction = pos 0;
}

abbrev pub no_counters : Counters
no_counters = record {
  reclaimed_segment_count = pos 0;
  reclaimed_bytes = pos 0;
  peak_logical_size_bytes = pos 0;
  peak_capacity_bytes = pos 0;
  peak_allocated_capacity_bytes = pos 0;
  write_operation_count = pos 0;
  written_bytes = pos 0;
  truncate_operation_count = pos 0;
  lock_wait_count = pos 0;
  lock_wait_ms = pos 0;
  checkpoint_count = pos 0;
  checkpoint_ms = pos 0;
  checkpoint_write_ahead_pages = pos 0;
  last_checkpoint_ms = pos 0;
  last_checkpoint_write_ahead_pages = pos 0;
}

-- A new metadata buffer: every slot 0.
abbrev pub no_meta : FileMeta
no_meta = record {
  words = no_lock;
  size = 0;
  active_segment_count = 0;
  counters = no_counters;
  transaction = no_transaction;
}

-- Writes to single slots.
abbrev pub with_words : Progress → SharedFile → SharedFile
with_words p f = record f { meta = record (f.meta) { words = p f.meta.words } }

abbrev pub with_counters : (Counters → Counters) → SharedFile → SharedFile
with_counters g f = record f { meta = record (f.meta) { counters = g f.meta.counters } }

abbrev pub byte_length : Segment → ℕ
byte_length s = length s.contents

abbrev pub sum_bytes : List Segment → ℕ
sum_bytes [] = 0
sum_bytes (s ∷ ss) = byte_length s + sum_bytes ss

unfoldable pub get_active_segment_count : SharedFile → ℕ
get_active_segment_count f = max min_segment_count f.meta.active_segment_count

unfoldable pub get_allocated_capacity_bytes : SharedFile → ℕ
get_allocated_capacity_bytes f = sum_bytes f.segments

unfoldable pub get_file_capacity_bytes : SharedFile → ℕ
unfolding get_active_segment_count
get_file_capacity_bytes f = sum_bytes (take (get_active_segment_count f) f.segments)

unfoldable pub get_active_file_capacity_bytes : SharedFile → ℕ → ℕ
get_active_file_capacity_bytes f active_segment_count =
    elim (get_elem? f.segments (active_segment_count - 1)) [
      | none ↦ 0
      | some active_segment ↦
          (active_segment_count - 1) * f.segment_capacity_bytes + byte_length active_segment
    ]

unfoldable pub get_file_size_bytes : SharedFile → ℕ
get_file_size_bytes f = f.meta.size

unfoldable pub raise_peaks : SharedFile → SharedFile
unfolding raise_to get_file_capacity_bytes get_allocated_capacity_bytes
raise_peaks f =
    with_counters
      (λ c. record c {
        peak_capacity_bytes = raise_to c.peak_capacity_bytes (get_file_capacity_bytes f);
        peak_allocated_capacity_bytes =
            raise_to c.peak_allocated_capacity_bytes (get_allocated_capacity_bytes f);
      })
      f

unfoldable pub record_memory_write_ahead_file_high_water : SharedFile → SharedFile
unfolding raise_to raise_peaks get_file_size_bytes
record_memory_write_ahead_file_high_water f = raise_peaks (
    with_counters
      (λ c. record c {
        peak_logical_size_bytes = raise_to c.peak_logical_size_bytes (get_file_size_bytes f);
      })
      f)

unfoldable pub set_file_size_bytes : SharedFile → ℕ → SharedFile
unfolding raise_to
set_file_size_bytes f size_bytes =
    with_counters
      (λ c. record c { peak_logical_size_bytes = raise_to c.peak_logical_size_bytes size_bytes })
      (record f { meta = record (f.meta) { size = size_bytes } })
