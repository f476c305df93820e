-- ===== src/SharedFile/Transfer.antt =====
-- Reading and writing a segmented file (src/memoryWriteAheadSharedRuntime.ts):
-- readMemoryWriteAheadFile, ensureMemoryWriteAheadFileCapacity, writeMemoryWriteAheadFile,
-- truncateMemoryWriteAheadFile and clearMemoryWriteAheadFile. The loops run on fuel: a round copies
-- at least one byte, so one round for each byte of the caller's buffer is enough.
use memory_write_ahead_vfs.Base.{
  Result, ok, err, ℕ, zero, suc, ◌+◌, ◌-◌, true, false, ◌&&◌, Option, none, some, List, max, min,
  length, take, drop, overwrite, ltb, leb, ◌==◌, if◌then◌else◌,
}
use memory_write_ahead_vfs.Counter.{bump}
use memory_write_ahead_vfs.SharedFile.{
  SharedFile, FileError, no_segmented_storage, spins, Call, Progress, min_segment_count, no_meta,
  with_words, with_counters, byte_length, get_file_size_bytes, set_file_size_bytes,
  record_memory_write_ahead_file_high_water,
}
use memory_write_ahead_vfs.SharedFile.Capacity.{
  SegmentEntry, find_segment_at_offset, put_segment, ensure_file_capacity, set_active_segment_count,
  desired_segment_count,
}

-- What the caller's buffer holds after a read, and how many of its bytes the read has filled.
pub record Reading : Type 0 where
  pub bytes_read : ℕ
  pub destination : List ℕ

-- The test of the read loop together with the two reasons to leave it by `break`.
abbrev pub read_entry : SharedFile → ℕ → Reading → ℕ → Option SegmentEntry
read_entry f size st logical_offset =
    if ltb st.bytes_read (length st.destination) && ltb logical_offset size
    then elim (find_segment_at_offset f logical_offset) [
      | none ↦ none
      | some entry ↦
          if leb (byte_length entry.segment) entry.segment_offset then none else some entry
    ]
    else none

abbrev pub bytes_to_copy : ℕ → Reading → ℕ → SegmentEntry → ℕ
bytes_to_copy size st logical_offset entry =
    min (byte_length entry.segment - entry.segment_offset)
      (min (size - logical_offset) (length st.destination - st.bytes_read))

unfoldable pub read_loop : SharedFile → ℕ → ℕ → Reading → ℕ → Result FileError Reading
unfolding find_segment_at_offset
read_loop f size zero st logical_offset = err spins
read_loop f size (suc fuel) st logical_offset = elim (read_entry f size st logical_offset) [
  | none ↦ ok st
  | some entry ↦
      let n = bytes_to_copy size st logical_offset entry in
      read_loop f size fuel
        (record {
          bytes_read = st.bytes_read + n;
          destination =
              overwrite st.destination st.bytes_read
                (take n (drop entry.segment_offset entry.segment.contents));
        })
        (logical_offset + n)
]

unfoldable pub read_memory_write_ahead_file : SharedFile → List ℕ → ℕ → Result FileError Reading
unfolding get_file_size_bytes read_loop
read_memory_write_ahead_file f target offset =
    let start : Reading = record { bytes_read = 0; destination = target } in
    if leb (get_file_size_bytes f) offset
    then ok start
    else read_loop f (get_file_size_bytes f) (suc (length target)) start offset

-- `getSegmentBytes(segment).set(bytes, segmentOffset)`
abbrev pub store_bytes : SegmentEntry → List ℕ → SharedFile → SharedFile
store_bytes entry bytes f =
    put_segment entry.segment_index
      (record (entry.segment) {
        contents = overwrite entry.segment.contents entry.segment_offset bytes;
      })
      f

-- The `while` loop of writeMemoryWriteAheadFile: a round copies one segment's share of the input.
unfoldable pub write_loop : Progress → List ℕ → ℕ → ℕ → ℕ → Call ℕ
unfolding find_segment_at_offset
write_loop on_progress input zero bytes_written logical_offset f = (err spins, f)
write_loop on_progress input (suc fuel) bytes_written logical_offset f =
    elim (ltb bytes_written (length input)) [
      | false ↦ (ok bytes_written, f)
      | true ↦ elim (find_segment_at_offset f logical_offset) [
        | none ↦ (err no_segmented_storage, f)
        | some entry ↦
            let n =
              min (byte_length entry.segment - entry.segment_offset)
                (length input - bytes_written) in
            write_loop on_progress input fuel (bytes_written + n) (logical_offset + n)
              (with_words on_progress (store_bytes entry (take n (drop bytes_written input)) f))
      ]
    ]

abbrev pub count_write : ℕ → SharedFile → SharedFile
count_write bytes_written = with_counters (λ c. record c {
  write_operation_count = bump c.write_operation_count 1;
  written_bytes = bump c.written_bytes bytes_written;
})

abbrev pub count_empty_write : SharedFile → SharedFile
count_empty_write =
    with_counters (λ c. record c { write_operation_count = bump c.write_operation_count 1 })

abbrev pub settle_size : ℕ → SharedFile → SharedFile
settle_size required f = set_file_size_bytes f (max (get_file_size_bytes f) required)

-- What follows the copying: the size and the counters, if nothing was thrown.
abbrev pub finish_write :
    List ℕ → ℕ → Result FileError ℕ × SharedFile → Result FileError ℕ × SharedFile
finish_write input offset (err e, f) = (err e, f)
finish_write input offset (ok bytes_written, f) =
    (ok bytes_written, count_write bytes_written (settle_size (offset + length input) f))

-- The first segment's share of `n` bytes, with the shortcut for an input that fits in there.
unfoldable pub copy_share : Progress → List ℕ → ℕ → SegmentEntry → ℕ → Call ℕ
unfolding write_loop
copy_share on_progress input offset entry n f =
    if n == length input
    then (ok n, with_words on_progress (store_bytes entry input f))
    else write_loop on_progress input (suc (length input)) n (offset + n)
        (with_words on_progress (store_bytes entry (take n input) f))

unfoldable pub copy_from_first : Progress → List ℕ → ℕ → Call ℕ
unfolding copy_share find_segment_at_offset
copy_from_first on_progress input offset f = elim (find_segment_at_offset f offset) [
  | none ↦ (err no_segmented_storage, f)
  | some entry ↦
      copy_share on_progress input offset entry
        (min (byte_length entry.segment - entry.segment_offset) (length input)) f
]

unfoldable pub copy_input : Progress → List ℕ → ℕ → Call ℕ
unfolding copy_from_first set_file_size_bytes get_file_size_bytes bump
copy_input on_progress input offset f =
    finish_write input offset (copy_from_first on_progress input offset f)

-- What follows ensureFileCapacity: nothing, if it threw.
unfoldable pub write_ready :
    Progress
    → List ℕ
    → ℕ
    → Result FileError (Unit {0}) × SharedFile
    → Result FileError ℕ × SharedFile
unfolding copy_input set_file_size_bytes get_file_size_bytes bump
write_ready on_progress input offset (err e, f) = (err e, f)
write_ready on_progress input offset (ok _, f) =
    if length input == 0
    then (ok 0, count_empty_write (settle_size (offset + length input) f))
    else copy_input on_progress input offset f

unfoldable pub write_memory_write_ahead_file : Progress → List ℕ → ℕ → Call ℕ
unfolding write_ready ensure_file_capacity
write_memory_write_ahead_file on_progress input offset f =
    write_ready on_progress input offset
      (ensure_file_capacity on_progress (offset + length input) f)

unfoldable pub shrink_or_extend : Progress → ℕ → SharedFile → SharedFile
unfolding set_file_size_bytes desired_segment_count set_active_segment_count bump
    record_memory_write_ahead_file_high_water
shrink_or_extend on_progress size_bytes f = record_memory_write_ahead_file_high_water (
    with_counters (λ c. record c { truncate_operation_count = bump c.truncate_operation_count 1 })
      (set_active_segment_count (with_words on_progress (set_file_size_bytes f size_bytes))
        (desired_segment_count f size_bytes)))

abbrev pub truncate_ready :
    Progress
    → ℕ
    → Result FileError (Unit {0}) × SharedFile
    → Result FileError (Unit {0}) × SharedFile
truncate_ready on_progress size_bytes (err e, f) = (err e, f)
truncate_ready on_progress size_bytes (ok _, f) = (ok tt, shrink_or_extend on_progress size_bytes f)

unfoldable pub truncate_memory_write_ahead_file : Progress → ℕ → Call (Unit {0})
unfolding shrink_or_extend ensure_file_capacity
truncate_memory_write_ahead_file on_progress size_bytes f =
    truncate_ready on_progress size_bytes (ensure_file_capacity on_progress size_bytes f)

-- Every slot is set to 0, the lock's among them; the segments keep their bytes.
unfoldable pub clear_memory_write_ahead_file : SharedFile → SharedFile
unfolding set_file_size_bytes set_active_segment_count
clear_memory_write_ahead_file f =
    set_active_segment_count (set_file_size_bytes (record f { meta = no_meta }) 0) min_segment_count
