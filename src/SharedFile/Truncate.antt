-- ===== src/SharedFile/Truncate.antt =====
-- truncateMemoryWriteAheadFile and clearMemoryWriteAheadFile on a well-formed file
-- (src/memoryWriteAheadSharedRuntime.ts).
use native.Mathlib.Decide.{dec_lt}
use memory_write_ahead_vfs.Base.{
  ok, err, ℕ, zero, suc, ◌+◌, ◌-◌, ◌*◌, ◌≤◌, ◌<◌, ◌≡◌, refl, ap, ◌∙◌, length, arith, lt→ltb,
}
use memory_write_ahead_vfs.SharedFile.{
  SharedFile, capacity_exceeded, Progress, with_words, no_meta, no_transaction, no_lock,
  set_file_size_bytes,
}
use memory_write_ahead_vfs.SharedFile.Transfer.{
  shrink_or_extend, truncate_ready, truncate_memory_write_ahead_file, clear_memory_write_ahead_file,
}
use memory_write_ahead_vfs.SharedFile.Capacity.{desired_segment_count, set_active_segment_count}
use memory_write_ahead_vfs.SharedFile.Arith.{mul_mono, lt_of_mul-lt, pred_mul}
use memory_write_ahead_vfs.SharedFile.Invariant.{
  active_count, active_room, filled, byte_at, IsWellFormed,
}
use memory_write_ahead_vfs.SharedFile.Activate.{Resized, set_active_segment_count-exactly}
use memory_write_ahead_vfs.SharedFile.Ensure.{ensure_file_capacity-Ensured}
use memory_write_ahead_vfs.SharedFile.Desired.{Desired, desired_segment_count-Desired}
use memory_write_ahead_vfs.SharedFile.WriteLaws.{byte_at-Ensured}

-- Fewer active segments, all full but the last, still hold `size` bytes.
pub Resized-IsWellFormed :
    {f f' : SharedFile} {d size : ℕ}
    → IsWellFormed f
    → Resized f d size f'
    → 1 ≤ d
    → d ≤ active_count f
    → size ≤ d * f.segment_capacity_bytes
    → size ≤ active_room f
    → IsWellFormed f'
Resized-IsWellFormed {f} {f'} {d} {size} w r one le most room = record {
  positive = ground (arith, w.positive, r.same_capacity);
  bounded = ground (arith, w.bounded, r.same_max);
  limits = λ k. rw (r.same_segments, r.same_capacity, r.same_max) (w.limits k);
  fits = λ k. rw r.same_segments (w.fits k);
  fixed_full = rw r.same_segments w.fixed_full;
  active = rw (r.new_active, r.same_segments) (omega (arith, w.active));
  full = λ k h. rw (r.same_segments, r.same_capacity) (w.full k (omega (arith, h, r.new_active)));
  sized = rw (r.new_active, r.new_size, r.same_segments, r.same_capacity) held;
}
  where
    held : size ≤ (d - 1) * f.segment_capacity_bytes + filled f.segments (d - 1)
    held = elim (dec_lt d (active_count f)) [
      | yes fewer ↦ omega (
        arith,
        w.full (d - 1) (omega arith),
        pred_mul d f.segment_capacity_bytes,
        mul_mono 1 d f.segment_capacity_bytes one,
      )
      | no same ↦ let e : active_count f ≡ d = omega arith in rw e at room
    ]

shrink_or_extend-Resized :
    (p : Progress) (size : ℕ) (f : SharedFile)
    → 1 ≤ desired_segment_count f size
    → desired_segment_count f size ≤ length f.segments
    → Resized f (desired_segment_count f size) size (shrink_or_extend p size f)
unfolding shrink_or_extend
shrink_or_extend-Resized p size f one there = record {
  same_db = r.same_db;
  same_path = r.same_path;
  same_max = r.same_max;
  same_capacity = r.same_capacity;
  same_segments = r.same_segments;
  same_transaction = r.same_transaction;
  new_size = r.new_size;
  new_active = r.new_active;
}
  where
    sized : SharedFile
    sized = with_words p (set_file_size_bytes f size)

    r :
        Resized sized
          (desired_segment_count f size)
          size
          (set_active_segment_count sized (desired_segment_count f size))
    r = set_active_segment_count-exactly sized (desired_segment_count f size) one there

-- What a truncation to `size` makes of `f`.
pub record Truncated (f : SharedFile) (size : ℕ) (f' : SharedFile) : Type 0 where
  pub same_db : f'.db_filename ≡ f.db_filename
  pub same_path : f'.pathname ≡ f.pathname
  pub same_max : f'.max_capacity_bytes ≡ f.max_capacity_bytes
  pub same_capacity : f'.segment_capacity_bytes ≡ f.segment_capacity_bytes
  pub same_transaction : f'.meta.transaction ≡ f.meta.transaction
  pub new_size : f'.meta.size ≡ size
  pub new_active : active_count f' ≡ desired_segment_count f size
  pub same_bytes : (i : ℕ) → byte_at f' i ≡ byte_at f i

byte_at-Resized :
    {f f' : SharedFile} {d size : ℕ} → Resized f d size f' → (i : ℕ) → byte_at f' i ≡ byte_at f i
byte_at-Resized r i = rw (r.same_segments, r.same_capacity)

desired-same :
    (f g : SharedFile) (size : ℕ)
    → g.segment_capacity_bytes ≡ f.segment_capacity_bytes
    → desired_segment_count g size ≡ desired_segment_count f size
unfolding desired_segment_count
desired-same f g size e = rw e

desired_segment_count-le-active :
    {g : SharedFile} (size : ℕ) {d : ℕ}
    → IsWellFormed g
    → Desired g size d
    → d ≡ desired_segment_count g size
    → size ≤ active_room g
    → d ≤ active_count g
unfolding desired_segment_count
desired_segment_count-le-active {g} zero w des e room = ground arith
desired_segment_count-le-active {g} (suc m) {d} w des e room =
    let c = g.segment_capacity_bytes in
    let a = active_count g in
    let below : (d - 1) * c < a * c = omega (
      arith,
      des.strict (omega arith),
      w.fits (a - 1),
      w.limits (a - 1),
      pred_mul a c,
      mul_mono 1 a c (omega arith),
    ) in
    omega (arith, lt_of_mul-lt (d - 1) a c below)

-- A truncation within the capacity, to a smaller or a larger size, returns on a well-formed file:
-- the file stays well formed, has exactly the new size and as many active segments as that needs,
-- and keeps its bytes, those beyond the new size too.
pub truncate_memory_write_ahead_file-Truncated :
    (p : Progress) (size : ℕ) {f : SharedFile}
    → IsWellFormed f
    → size ≤ f.max_capacity_bytes
    → (f' : SharedFile) × (truncate_memory_write_ahead_file p size f ≡ (ok tt, f'))
      × IsWellFormed f'
      × Truncated f size f'
unfolding truncate_memory_write_ahead_file
truncate_memory_write_ahead_file-Truncated p size {f} w le =
    let (g, made, wg, en) = ensure_file_capacity-Ensured p size w le in
    let des = desired_segment_count-Desired size wg (rw en.same_max le) in
    let same : desired_segment_count g size ≡ desired_segment_count f size =
      desired-same f g size en.same_capacity in
    let r = shrink_or_extend-Resized p size g des.one des.there in
    (
      shrink_or_extend p size g,
      ap (truncate_ready p size) made,
      Resized-IsWellFormed wg r des.one (desired_segment_count-le-active size wg des refl en.room)
          des.enough en.room,
      record {
        same_db = r.same_db ∙ en.same_db;
        same_path = r.same_path ∙ en.same_path;
        same_max = r.same_max ∙ en.same_max;
        same_capacity = r.same_capacity ∙ en.same_capacity;
        same_transaction = r.same_transaction ∙ en.same_transaction;
        new_size = r.new_size;
        new_active = r.new_active ∙ same;
        same_bytes = λ i. byte_at-Resized r i ∙ byte_at-Ensured size en i;
      },
    )

-- A truncation beyond the capacity throws, and nothing of the file changes.
pub truncate_memory_write_ahead_file-too_long :
    (p : Progress) (size : ℕ) (f : SharedFile)
    → f.max_capacity_bytes < size
    → truncate_memory_write_ahead_file p size f ≡ (err capacity_exceeded, f)
unfolding truncate_memory_write_ahead_file
truncate_memory_write_ahead_file-too_long p size f h = rw (lt→ltb _ _ h)

set_active_segment_count-words :
    (f : SharedFile) (k : ℕ) → (set_active_segment_count f k).meta.words ≡ f.meta.words
unfolding set_active_segment_count
set_active_segment_count-words f k = ground arith

-- A file with every slot at 0 has one active segment and no bytes.
blank : SharedFile → SharedFile
blank f = set_file_size_bytes (record f { meta = no_meta }) 0

blank-IsWellFormed : {f : SharedFile} → IsWellFormed f → IsWellFormed (blank f)
unfolding blank set_file_size_bytes
blank-IsWellFormed {f} w = record {
  positive = w.positive;
  bounded = w.bounded;
  limits = w.limits;
  fits = w.fits;
  fixed_full = w.fixed_full;
  active = omega (arith, w.active);
  full = λ k h. absurd (omega arith);
  sized = omega arith;
}

-- Clearing a file keeps it well formed and empties it; every slot of the locks is 0 afterwards,
-- and the bytes stay in the segments.
pub clear_memory_write_ahead_file-clears :
    {f : SharedFile}
    → IsWellFormed f
    → let f' = clear_memory_write_ahead_file f in
      IsWellFormed f'
      × (f'.meta.size ≡ 0)
      × (active_count f' ≡ 1)
      × (f'.meta.words ≡ no_lock)
      × (f'.meta.transaction ≡ no_transaction)
      × ((i : ℕ) → byte_at f' i ≡ byte_at f i)
unfolding clear_memory_write_ahead_file blank
clear_memory_write_ahead_file-clears {f} w = (
  Resized-IsWellFormed (blank-IsWellFormed w) r (omega arith) (omega arith) (omega arith)
      (omega arith),
  r.new_size,
  r.new_active,
  set_active_segment_count-words (blank f) 1,
  r.same_transaction,
  λ i. byte_at-Resized r i,
)
  where
    r : Resized (blank f) 1 0 (set_active_segment_count (blank f) 1)
    r = set_active_segment_count-exactly (blank f) 1 (omega arith) (omega (arith, w.active))
