-- ===== src/SharedFile/LockKept.antt =====
-- The file operations leave the lock word of the file to their `onProgress`
-- (src/memoryWriteAheadSharedRuntime.ts): if it keeps the word, so does the operation, on every path.
use memory_write_ahead_vfs.Base.{
  ℕ, zero, suc, ◌+◌, ◌-◌, ◌≡◌, refl, ◌∙◌, Bool, false, ◌||◌, List, ℤ, length, get_elem?, take, drop,
  min, leb, ltb, ◌==◌, Result, ok, err, ◌⊎◌, inl, inr, Bool-cases, Option-cases, arith,
}
use memory_write_ahead_vfs.SharedFile.{
  SharedFile, LockWords, FileError, Progress, with_words, byte_length, get_active_segment_count,
  get_active_file_capacity_bytes, set_file_size_bytes, record_memory_write_ahead_file_high_water,
  raise_peaks,
}
use memory_write_ahead_vfs.SharedFile.Capacity.{
  SegmentEntry, find_segment_at_offset, put_segment, grow_segment, grow_segments,
  required_segment_bytes, settle_capacity, settle_grown, set_active_segment_count, count_reclaimed,
  ensure_file_capacity, desired_segment_count,
}
use memory_write_ahead_vfs.SharedFile.Transfer.{
  store_bytes, write_loop, finish_write, copy_share, copy_from_first, copy_input, write_ready,
  write_memory_write_ahead_file, shrink_or_extend, truncate_ready, truncate_memory_write_ahead_file,
}

abbrev pub KeepsLock : Progress → Type 0
KeepsLock p = (w : LockWords) → (p w).lock ≡ w.lock

abbrev pub lock_of : SharedFile → ℤ
lock_of f = f.meta.words.lock

Result-cases : {E A : Type 0} (r : Result E A) → ((e : E) × (r ≡ err e)) ⊎ ((a : A) × (r ≡ ok a))
Result-cases (err e) = inl (e, refl)
Result-cases (ok a) = inr (a, refl)

set_active_segment_count-lock :
    (f : SharedFile) (k : ℕ) → lock_of (set_active_segment_count f k) ≡ lock_of f
unfolding set_active_segment_count count_reclaimed raise_peaks
set_active_segment_count-lock f k = ground arith

settle_capacity-lock :
    (d a : ℕ) (b : Bool) (f : SharedFile) → lock_of (settle_capacity d a b f) ≡ lock_of f
unfolding settle_capacity raise_peaks
settle_capacity-lock d a b f = ground (arith, set_active_segment_count-lock f d)

settle_grown-lock :
    (d a : ℕ) (out : Result FileError Bool × SharedFile)
    → lock_of (settle_grown d a out).1 ≡ lock_of out.1
settle_grown-lock d a (err e, f) = refl
settle_grown-lock d a (ok b, f) = settle_capacity-lock d a b f

module _ (p : Progress) (keeps : KeepsLock p) where
  grow_segments-lock :
      (required rounds index : ℕ) (b : Bool) (f : SharedFile)
      → lock_of (grow_segments p required rounds index b f).1 ≡ lock_of f
  unfolding grow_segments
  grow_segments-lock required zero index b f = refl
  grow_segments-lock required (suc rounds) index b f =
      elim (Option-cases (get_elem? f.segments index)) [
        | inl e ↦ rw (e, grow_segments) refl
        | inr (s, e) ↦
            elim (Result-cases (grow_segment s (required_segment_bytes f s index required))) [
              | inl (x, g) ↦ rw (e, grow_segments, g) refl
              | inr (x, g) ↦
                  rw (e, grow_segments, g)
                    (grow_segments-lock required rounds (index + 1) (x.1 || b)
                        (with_words p (put_segment index x.0 f))
                      ∙ keeps f.meta.words)
            ]
      ]

  ensure_file_capacity-lock :
      (required : ℕ) (f : SharedFile) → lock_of (ensure_file_capacity p required f).1 ≡ lock_of f
  unfolding ensure_file_capacity
  ensure_file_capacity-lock required f = elim (Bool-cases (ltb f.max_capacity_bytes required)) [
    | inl e ↦ rw e refl
    | inr e ↦
        elim (Bool-cases
          (leb required (get_active_file_capacity_bytes f (get_active_segment_count f)))) [
            | inl g ↦ rw (e, g) refl
            | inr g ↦
                rw (e, g)
                  (settle_grown-lock (desired_segment_count f required) (get_active_segment_count f)
                      _
                    ∙ grow_segments-lock required _ _ false f)
          ]
  ]

  write_loop-lock :
      (input : List ℕ) (fuel written offset : ℕ) (f : SharedFile)
      → lock_of (write_loop p input fuel written offset f).1 ≡ lock_of f
  unfolding write_loop
  write_loop-lock input zero written offset f = refl
  write_loop-lock input (suc fuel) written offset f =
      elim (Bool-cases (ltb written (length input))) [
        | inr e ↦ rw (e, write_loop) refl
        | inl e ↦ elim (Option-cases (find_segment_at_offset f offset)) [
          | inl g ↦ rw (e, write_loop, g) refl
          | inr (entry, g) ↦
              let n =
                min (byte_length entry.segment - entry.segment_offset) (length input - written) in
              rw (e, write_loop, g)
                (write_loop-lock input fuel (written + n) (offset + n)
                    (with_words p (store_bytes entry (take n (drop written input)) f))
                  ∙ keeps f.meta.words)
        ]
      ]

  copy_share-lock :
      (input : List ℕ) (offset : ℕ) (entry : SegmentEntry) (n : ℕ) (f : SharedFile)
      → lock_of (copy_share p input offset entry n f).1 ≡ lock_of f
  unfolding copy_share
  copy_share-lock input offset entry n f = elim (Bool-cases (n == length input)) [
    | inl e ↦ rw e (keeps f.meta.words)
    | inr e ↦
        rw e (write_loop-lock input (suc (length input)) n (offset + n) _ ∙ keeps f.meta.words)
  ]

  copy_from_first-lock :
      (input : List ℕ) (offset : ℕ) (f : SharedFile)
      → lock_of (copy_from_first p input offset f).1 ≡ lock_of f
  unfolding copy_from_first
  copy_from_first-lock input offset f = elim (Option-cases (find_segment_at_offset f offset)) [
    | inl e ↦ rw (e, copy_from_first) refl
    | inr (entry, e) ↦ rw (e, copy_from_first) (copy_share-lock input offset entry _ f)
  ]

finish_write-lock :
    (input : List ℕ) (offset : ℕ) (out : Result FileError ℕ × SharedFile)
    → lock_of (finish_write input offset out).1 ≡ lock_of out.1
unfolding set_file_size_bytes
finish_write-lock input offset (err e, f) = refl
finish_write-lock input offset (ok n, f) = refl

write_ready-lock :
    (p : Progress)
    → KeepsLock p
    → (input : List ℕ) (offset : ℕ) (out : Result FileError (Unit {0}) × SharedFile)
    → lock_of (write_ready p input offset out).1 ≡ lock_of out.1
unfolding write_ready copy_input set_file_size_bytes
write_ready-lock p keeps input offset (err e, f) = refl
write_ready-lock p keeps input offset (ok u, f) = elim (Bool-cases (length input == 0)) [
  | inl e ↦ rw e refl
  | inr e ↦ rw e (
      finish_write-lock input offset (copy_from_first p input offset f)
      ∙ copy_from_first-lock p keeps input offset f)
]

pub write_memory_write_ahead_file-lock :
    (p : Progress)
    → KeepsLock p
    → (input : List ℕ) (offset : ℕ) (f : SharedFile)
    → lock_of (write_memory_write_ahead_file p input offset f).1 ≡ lock_of f
unfolding write_memory_write_ahead_file
write_memory_write_ahead_file-lock p keeps input offset f =
    write_ready-lock p keeps input offset (ensure_file_capacity p (offset + length input) f)
    ∙ ensure_file_capacity-lock p keeps (offset + length input) f

truncate_ready-lock :
    (p : Progress)
    → KeepsLock p
    → (n : ℕ) (out : Result FileError (Unit {0}) × SharedFile)
    → lock_of (truncate_ready p n out).1 ≡ lock_of out.1
unfolding shrink_or_extend record_memory_write_ahead_file_high_water raise_peaks set_file_size_bytes
truncate_ready-lock p keeps n (err e, f) = refl
truncate_ready-lock p keeps n (ok u, f) =
    set_active_segment_count-lock (with_words p (set_file_size_bytes f n))
      (desired_segment_count f n)
    ∙ keeps f.meta.words

pub truncate_memory_write_ahead_file-lock :
    (p : Progress)
    → KeepsLock p
    → (n : ℕ) (f : SharedFile) → lock_of (truncate_memory_write_ahead_file p n f).1 ≡ lock_of f
unfolding truncate_memory_write_ahead_file
truncate_memory_write_ahead_file-lock p keeps n f =
    truncate_ready-lock p keeps n (ensure_file_capacity p n f)
    ∙ ensure_file_capacity-lock p keeps n f
