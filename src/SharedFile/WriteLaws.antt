-- ===== src/SharedFile/WriteLaws.antt =====
-- writeMemoryWriteAheadFile on a well-formed file (src/memoryWriteAheadSharedRuntime.ts).
use memory_write_ahead_vfs.Base.{
  Result, ok, err, ℕ, ◌+◌, ◌-◌, ◌/◌, ◌%◌, ◌≤◌, ◌<◌, ◌≡◌, refl, ap, ap₂, ◌∙◌, false, ◌&&◌, List, [],
  ◌∷◌, max, length, get_or, ltb, leb, ◌==◌, if◌then◌else◌, lt→ltb, list_ext, arith,
}
use memory_write_ahead_vfs.Counter.{bump, raise_to}
use memory_write_ahead_vfs.SharedFile.{
  Counters, with_counters, SharedFile, FileError, capacity_exceeded, Progress,
}
use memory_write_ahead_vfs.SharedFile.Transfer.{
  count_empty_write, count_write, settle_size, finish_write, write_ready,
  write_memory_write_ahead_file,
}
use memory_write_ahead_vfs.SharedFile.Invariant.{active_room, byte_at, IsWellFormed}
use memory_write_ahead_vfs.SharedFile.Ensure.{Ensured, ensure_file_capacity-Ensured}
use memory_write_ahead_vfs.SharedFile.Writes.{Copied}
use memory_write_ahead_vfs.SharedFile.Transfer.{Reading, read_memory_write_ahead_file}
use memory_write_ahead_vfs.SharedFile.Reads.{read_memory_write_ahead_file-Reads}
use memory_write_ahead_vfs.SharedFile.WriteFile.{copy_from_first-Copied, start-Copied}

-- What a write of `input` at `offset` makes of `f`.
pub record Written (f : SharedFile) (input : List ℕ) (offset : ℕ) (f' : SharedFile) : Type 0 where
  pub same_db : f'.db_filename ≡ f.db_filename
  pub same_path : f'.pathname ≡ f.pathname
  pub same_max : f'.max_capacity_bytes ≡ f.max_capacity_bytes
  pub same_capacity : f'.segment_capacity_bytes ≡ f.segment_capacity_bytes
  pub same_transaction : f'.meta.transaction ≡ f.meta.transaction
  pub new_size : f'.meta.size ≡ max f.meta.size (offset + length input)
  pub new_bytes :
      (i : ℕ)
      → byte_at f' i ≡ (
          if leb offset i && ltb i (offset + length input)
          then get_or input (i - offset) 0
          else byte_at f i)

-- The bytes of a file in which room was made.
pub byte_at-Ensured :
    {f g : SharedFile} (required : ℕ) → Ensured f required g → (i : ℕ) → byte_at g i ≡ byte_at f i
byte_at-Ensured {f} {g} required en i =
    rw en.same_capacity
      (en.kept.same_bytes (i / f.segment_capacity_bytes) (i % f.segment_capacity_bytes))

-- The size and the counters change no byte and no segment.
settle-IsWellFormed :
    {f : SharedFile}
    → IsWellFormed f
    → (size : ℕ) (g : Counters → Counters) → size ≤ active_room f
    → IsWellFormed (with_counters g (record f { meta = record (f.meta) { size = size } }))
settle-IsWellFormed w size g h = record {
  positive = w.positive;
  bounded = w.bounded;
  limits = w.limits;
  fits = w.fits;
  fixed_full = w.fixed_full;
  active = w.active;
  full = w.full;
  sized = h;
}

-- From a file `g` with the room, the bytes copied into `h`, the size and the counters set.
module _ {f g h : SharedFile} {input : List ℕ} {offset : ℕ}
    (en : Ensured f (offset + length input) g) (copied : Copied g input offset (length input) h)
    (t : Counters → Counters) where
  abbrev size : ℕ
  size = max h.meta.size (offset + length input)

  abbrev final : SharedFile
  final = with_counters t (record h { meta = record (h.meta) { size = size } })

  final-IsWellFormed : IsWellFormed final
  final-IsWellFormed =
      settle-IsWellFormed copied.wf size t
        (omega (arith, copied.wf.sized, copied.same_room, en.room))

  final-Written : Written f input offset final
  final-Written = record {
    same_db = copied.frame.same_db ∙ en.same_db;
    same_path = copied.frame.same_path ∙ en.same_path;
    same_max = copied.frame.same_max ∙ en.same_max;
    same_capacity = copied.frame.same_capacity ∙ en.same_capacity;
    same_transaction = copied.frame.same_transaction ∙ en.same_transaction;
    new_size = omega (arith, copied.frame.same_size, en.same_size);
    new_bytes = λ i. ground (arith, copied.bytes i, byte_at-Ensured (offset + length input) en i);
  }

write_ready-Written :
    (p : Progress) (input : List ℕ) (offset : ℕ) {f g : SharedFile}
    → IsWellFormed g
    → Ensured f (offset + length input) g
    → (f' : SharedFile) × (write_ready p input offset (ok tt, g) ≡ (ok (length input), f'))
      × IsWellFormed f'
      × Written f input offset f'
unfolding write_ready
write_ready-Written p [] offset {g = g} w en =
    let copied = start-Copied [] offset w in
    let t = λ (c : Counters). record c {
      peak_logical_size_bytes = raise_to c.peak_logical_size_bytes (max g.meta.size (offset + 0));
      write_operation_count = bump c.write_operation_count 1;
    } in
    (
      count_empty_write (settle_size (offset + 0) g),
      refl,
      final-IsWellFormed en copied t,
      final-Written en copied t,
    )
write_ready-Written p (x ∷ xs) offset {g = g} w en =
    let input = x ∷ xs in
    let (h, run, copied) =
      copy_from_first-Copied w p input offset (omega (arith, en.room)) (omega arith) en.room in
    let t = λ (c : Counters). record c {
      peak_logical_size_bytes =
          raise_to c.peak_logical_size_bytes (max h.meta.size (offset + length input));
      write_operation_count = bump c.write_operation_count 1;
      written_bytes = bump c.written_bytes (length input);
    } in
    (
      count_write (length input) (settle_size (offset + length input) h),
      rw (let e : (length input == 0) ≡ false = ground arith in e)
          (ap (finish_write input offset) run),
      final-IsWellFormed en copied t,
      final-Written en copied t,
    )

-- A write that fits in the file's capacity returns the number of bytes it was given, on any
-- well-formed file: the file stays well formed, its bytes from `offset` on are the input and all
-- others are as before, and it is as long as it was or reaches the end of the input.
pub write_memory_write_ahead_file-Written :
    (p : Progress) (input : List ℕ) (offset : ℕ) {f : SharedFile}
    → IsWellFormed f
    → offset + length input ≤ f.max_capacity_bytes
    → (f' : SharedFile) × (write_memory_write_ahead_file p input offset f ≡ (ok (length input), f'))
      × IsWellFormed f'
      × Written f input offset f'
unfolding write_memory_write_ahead_file
write_memory_write_ahead_file-Written p input offset w le =
    let (g, made, wg, en) = ensure_file_capacity-Ensured p (offset + length input) w le in
    let (f', run, wf, written) = write_ready-Written p input offset wg en in
    (f', ap (write_ready p input offset) made ∙ run, wf, written)

-- A write beyond the capacity throws, and nothing of the file changes.
pub write_memory_write_ahead_file-too_long :
    (p : Progress) (input : List ℕ) (offset : ℕ) (f : SharedFile)
    → f.max_capacity_bytes < offset + length input
    → write_memory_write_ahead_file p input offset f ≡ (err capacity_exceeded, f)
unfolding write_memory_write_ahead_file
write_memory_write_ahead_file-too_long p input offset f h = rw (lt→ltb _ _ h)

-- What was written is read back: a read of as many bytes at the same offset fills its buffer with
-- the input, whatever the buffer held.
pub read-write :
    (p : Progress) (input target : List ℕ) (offset : ℕ) {f : SharedFile}
    → IsWellFormed f
    → offset + length input ≤ f.max_capacity_bytes
    → length target ≡ length input
    → read_memory_write_ahead_file (write_memory_write_ahead_file p input offset f).1 target offset
      ≡ ok (record { bytes_read = length input; destination = input })
read-write p input target offset {f} w le same =
    let (f', run, wf, written) = write_memory_write_ahead_file-Written p input offset w le in
    let (r, got, reads) = read_memory_write_ahead_file-Reads target offset wf in
    let e : (write_memory_write_ahead_file p input offset f).1 ≡ f' = ap (λ t. t.1) run in
    let count : r.bytes_read ≡ length input = omega (arith, reads.filled_bytes, written.new_size) in
    let bytes : r.destination ≡ input =
      list_ext r.destination input 0 (reads.holds.same_length ∙ same) λ i h.
        ground
          (arith, reads.holds.bytes i, written.new_bytes (offset + i), reads.holds.same_length) in
    rw e (
      got
      ∙ ap₂ {C = Result FileError Reading}
          (λ m bytes. ok (record { bytes_read = m; destination = bytes })) count bytes)
