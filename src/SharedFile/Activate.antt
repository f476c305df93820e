-- ===== src/SharedFile/Activate.antt =====
-- setActiveSegmentCount and the counters: which fields of a file they touch
-- (src/memoryWriteAheadSharedRuntime.ts).
use memory_write_ahead_vfs.Base.{
  ℕ, ◌≡◌, refl, Bool, true, false, max, min, length, arith, ◌≤◌, inl, inr, Bool-cases, ltb,
  ltb_false→le, if◌then◌else◌,
}
use memory_write_ahead_vfs.SharedFile.{SharedFile, raise_peaks}
use memory_write_ahead_vfs.SharedFile.Capacity.{set_active_segment_count, settle_capacity}
use memory_write_ahead_vfs.SharedFile.Invariant.{active_count}

-- `f'` is `f` with `active` as its segment count and `size` as its size, up to counters and the
-- slots of the file lock.
pub record Resized (f : SharedFile) (active size : ℕ) (f' : SharedFile) : Type 0 where
  pub same_db : f'.db_filename ≡ f.db_filename
  pub same_path : f'.pathname ≡ f.pathname
  pub same_max : f'.max_capacity_bytes ≡ f.max_capacity_bytes
  pub same_capacity : f'.segment_capacity_bytes ≡ f.segment_capacity_bytes
  pub same_segments : f'.segments ≡ f.segments
  pub same_transaction : f'.meta.transaction ≡ f.meta.transaction
  pub new_size : f'.meta.size ≡ size
  pub new_active : active_count f' ≡ active

pub set_active_segment_count-Resized :
    (f : SharedFile) (n : ℕ)
    → Resized f (max 1 (min n (length f.segments))) f.meta.size (set_active_segment_count f n)
unfolding set_active_segment_count
set_active_segment_count-Resized f n = record {
  same_db = ground arith;
  same_path = ground arith;
  same_max = ground arith;
  same_capacity = ground arith;
  same_segments = ground arith;
  same_transaction = ground arith;
  new_size = ground arith;
  new_active = ground arith;
}

raise_peaks-Resized :
    (f : SharedFile) (n : ℕ) → active_count f ≡ n → Resized f n f.meta.size (raise_peaks f)
unfolding raise_peaks
raise_peaks-Resized f n e = record {
  same_db = refl;
  same_path = refl;
  same_max = refl;
  same_capacity = refl;
  same_segments = refl;
  same_transaction = refl;
  new_size = refl;
  new_active = e;
}

Resized-refl : (f : SharedFile) (n : ℕ) → active_count f ≡ n → Resized f n f.meta.size f
Resized-refl f n e = record {
  same_db = refl;
  same_path = refl;
  same_max = refl;
  same_capacity = refl;
  same_segments = refl;
  same_transaction = refl;
  new_size = refl;
  new_active = e;
}

pub set_active_segment_count-exactly :
    (f : SharedFile) (d : ℕ)
    → 1 ≤ d
    → d ≤ length f.segments
    → Resized f d f.meta.size (set_active_segment_count f d)
set_active_segment_count-exactly f d one there =
    let e : max 1 (min d (length f.segments)) ≡ d = omega arith in
    rw e at (set_active_segment_count-Resized f d)

-- After the loop of ensureFileCapacity `d` segments are active, whichever branch is taken.
pub settle_capacity-Resized :
    (d : ℕ) (did : Bool) (f : SharedFile)
    → 1 ≤ d
    → d ≤ length f.segments
    → active_count f ≤ d
    → Resized f d f.meta.size (settle_capacity d (active_count f) did f)
unfolding settle_capacity
settle_capacity-Resized d did f one there le = elim (Bool-cases (ltb (active_count f) d)) [
  | inl more ↦ rw more (set_active_segment_count-exactly f d one there)
  | inr same ↦ rw same (settled did (omega (arith, ltb_false→le (active_count f) d same)))
]
  where
    settled :
        (b : Bool) → active_count f ≡ d → Resized f d f.meta.size (if b then raise_peaks f else f)
    settled true e = raise_peaks-Resized f d e
    settled false e = Resized-refl f d e
