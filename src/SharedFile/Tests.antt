-- ===== src/SharedFile/Tests.antt =====
-- Runs of the file operations on a file of three segments of four bytes, and the theorems on
-- files at such inputs.
use memory_write_ahead_vfs.Base.{
  ok, err, ℕ, ◌-◌, ◌*◌, ◌≤◌, zero, suc, ◌≡◌, refl, List, [], ◌∷◌, get_elem?, arith, min, some,
}
use memory_write_ahead_vfs.SharedFile.{
  growable, fixed, Segment, SharedFile, capacity_exceeded, no_meta, byte_length,
}
use memory_write_ahead_vfs.SharedFile.Transfer.{
  Reading, read_memory_write_ahead_file, write_memory_write_ahead_file,
  truncate_memory_write_ahead_file,
}
use memory_write_ahead_vfs.SharedFile.Capacity.{ensure_file_capacity}
use memory_write_ahead_vfs.SharedFile.Invariant.{IsWellFormed, filled, limit}
use memory_write_ahead_vfs.SharedFile.Ensure.{Ensured, ensure_file_capacity-Ensured}
use memory_write_ahead_vfs.SharedFile.Reads.{Reads, read_memory_write_ahead_file-Reads}
use memory_write_ahead_vfs.SharedFile.WriteLaws.{Written, write_memory_write_ahead_file-Written}
use memory_write_ahead_vfs.SharedFile.Truncate.{
  Truncated, truncate_memory_write_ahead_file-Truncated,
}

abbrev pub small_segment : List ℕ → Segment
small_segment bytes = record { capacity_mode = growable; contents = bytes; max_capacity_bytes = 4 }

abbrev pub small_file : SharedFile
small_file = record {
  db_filename = "/a.sqlite";
  max_capacity_bytes = 12;
  meta = record no_meta { active_segment_count = 1 };
  pathname = "/a.sqlite";
  segment_capacity_bytes = 4;
  segments = small_segment (0 ∷ 0 ∷ 0 ∷ 0 ∷ []) ∷ small_segment [] ∷ small_segment [] ∷ [];
}

abbrev pub six : List ℕ
six = 1 ∷ 2 ∷ 3 ∷ 4 ∷ 5 ∷ 6 ∷ []

abbrev written : SharedFile
written = (write_memory_write_ahead_file (λ w. w) (1 ∷ 2 ∷ 3 ∷ 4 ∷ 5 ∷ 6 ∷ []) 3 small_file).1

written_size : written.meta.size ≡ 9
unfolding write_memory_write_ahead_file
written_size = refl

written_read :
    read_memory_write_ahead_file written (9 ∷ 9 ∷ 9 ∷ 9 ∷ 9 ∷ []) 5
    ≡ ok (record { bytes_read = 4; destination = 3 ∷ 4 ∷ 5 ∷ 6 ∷ 9 ∷ [] })
unfolding write_memory_write_ahead_file read_memory_write_ahead_file
written_read = refl

too_long :
    (write_memory_write_ahead_file (λ w. w) (1 ∷ 2 ∷ []) 11 small_file).0 ≡ err capacity_exceeded
unfolding write_memory_write_ahead_file
too_long = refl

truncated : (truncate_memory_write_ahead_file (λ w. w) 2 written).1.meta.active_segment_count ≡ 1
unfolding write_memory_write_ahead_file truncate_memory_write_ahead_file
truncated = refl

small_limits : (k : ℕ) → limit small_file.segments k ≡ min 4 (12 - k * 4)
small_limits zero = refl
small_limits (suc zero) = refl
small_limits (suc (suc zero)) = refl
small_limits (suc (suc (suc k))) = omega arith

small_fits : (k : ℕ) → filled small_file.segments k ≤ limit small_file.segments k
small_fits zero = omega arith
small_fits (suc zero) = omega arith
small_fits (suc (suc zero)) = omega arith
small_fits (suc (suc (suc k))) = omega arith

small_growable :
    (k : ℕ) (s : Segment)
    → get_elem? small_file.segments k ≡ some s
    → s.capacity_mode ≡ fixed
    → byte_length s ≡ s.max_capacity_bytes
small_growable zero s e h = cc
small_growable (suc zero) s e h = cc
small_growable (suc (suc zero)) s e h = cc
small_growable (suc (suc (suc k))) s e h = cc

pub small_file-IsWellFormed : IsWellFormed small_file
small_file-IsWellFormed = record {
  positive = omega arith;
  bounded = omega arith;
  limits = small_limits;
  fits = small_fits;
  fixed_full = small_growable;
  active = omega arith;
  full = λ k h. absurd (omega arith);
  sized = omega arith;
}

write_example :
    (f' : SharedFile) × (write_memory_write_ahead_file (λ w. w) six 3 small_file ≡ (ok 6, f'))
    × IsWellFormed f'
    × Written small_file six 3 f'
write_example =
    write_memory_write_ahead_file-Written (λ w. w) six 3 small_file-IsWellFormed (omega arith)

-- Four bytes, of which three are the file's.
abbrev short_file : SharedFile
short_file = record small_file {
  meta = record no_meta { active_segment_count = 1; size = 3 };
  segments = small_segment (5 ∷ 6 ∷ 7 ∷ 0 ∷ []) ∷ small_segment [] ∷ small_segment [] ∷ [];
}

short_limits : (k : ℕ) → limit short_file.segments k ≡ min 4 (12 - k * 4)
short_limits zero = refl
short_limits (suc zero) = refl
short_limits (suc (suc zero)) = refl
short_limits (suc (suc (suc k))) = omega arith

short_fits : (k : ℕ) → filled short_file.segments k ≤ limit short_file.segments k
short_fits zero = omega arith
short_fits (suc zero) = omega arith
short_fits (suc (suc zero)) = omega arith
short_fits (suc (suc (suc k))) = omega arith

short_growable :
    (k : ℕ) (s : Segment)
    → get_elem? short_file.segments k ≡ some s
    → s.capacity_mode ≡ fixed
    → byte_length s ≡ s.max_capacity_bytes
short_growable zero s e h = cc
short_growable (suc zero) s e h = cc
short_growable (suc (suc zero)) s e h = cc
short_growable (suc (suc (suc k))) s e h = cc

short_file-IsWellFormed : IsWellFormed short_file
short_file-IsWellFormed = record {
  positive = omega arith;
  bounded = omega arith;
  limits = short_limits;
  fits = short_fits;
  fixed_full = short_growable;
  active = omega arith;
  full = λ k h. absurd (omega arith);
  sized = omega arith;
}

read_example :
    (r : Reading) × (read_memory_write_ahead_file short_file (9 ∷ 9 ∷ 9 ∷ []) 1 ≡ ok r)
    × Reads short_file (9 ∷ 9 ∷ 9 ∷ []) 1 r
read_example = read_memory_write_ahead_file-Reads (9 ∷ 9 ∷ 9 ∷ []) 1 short_file-IsWellFormed

ensure_example :
    (f' : SharedFile) × (ensure_file_capacity (λ w. w) 10 short_file ≡ (ok tt, f'))
    × IsWellFormed f'
    × Ensured short_file 10 f'
ensure_example = ensure_file_capacity-Ensured (λ w. w) 10 short_file-IsWellFormed (omega arith)

truncate_example :
    (f' : SharedFile) × (truncate_memory_write_ahead_file (λ w. w) 2 short_file ≡ (ok tt, f'))
    × IsWellFormed f'
    × Truncated short_file 2 f'
truncate_example =
    truncate_memory_write_ahead_file-Truncated (λ w. w) 2 short_file-IsWellFormed (omega arith)
