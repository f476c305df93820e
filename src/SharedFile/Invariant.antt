-- ===== src/SharedFile/Invariant.antt =====
-- Well-formed segmented files, the bytes that they hold by logical offset, and what a call leaves
-- as it was (src/memoryWriteAheadSharedRuntime.ts).
pub mod Segments
use memory_write_ahead_vfs.Base.{
  ℕ, ◌+◌, ◌-◌, ◌*◌, ◌/◌, ◌%◌, ◌≤◌, ◌<◌, ◌≡◌, Option, none, some, List, [], max, min, length,
  get_elem?, get_or,
}
use memory_write_ahead_vfs.Counter.{max_int32_atomic_counter}
use memory_write_ahead_vfs.SharedFile.{fixed, Segment, SharedFile, byte_length}

-- The bytes of segment `k`, none where there is no such segment; how many; and how many at most.
abbrev pub contents_at : List Segment → ℕ → List ℕ
contents_at ss k = elim (get_elem? ss k) [ none ↦ [] | some s ↦ s.contents ]

abbrev pub filled : List Segment → ℕ → ℕ
filled ss k = elim (get_elem? ss k) [ none ↦ 0 | some s ↦ byte_length s ]

abbrev pub limit : List Segment → ℕ → ℕ
limit ss k = elim (get_elem? ss k) [ none ↦ 0 | some s ↦ s.max_capacity_bytes ]

-- A segment that cannot grow has its full length from the start.
abbrev pub FixedIsFull : List Segment → Type 0
FixedIsFull ss =
    (k : ℕ) (s : Segment)
    → get_elem? ss k ≡ some s
    → s.capacity_mode ≡ fixed
    → byte_length s ≡ s.max_capacity_bytes

-- The byte of the file at a logical offset; what no segment holds reads as 0.
abbrev pub byte_of : List Segment → ℕ → ℕ → ℕ
byte_of ss c i = get_or (contents_at ss (i / c)) (i % c) 0

abbrev pub byte_at : SharedFile → ℕ → ℕ
byte_at f i = byte_of f.segments f.segment_capacity_bytes i

abbrev pub active_count : SharedFile → ℕ
active_count f = max 1 f.meta.active_segment_count

-- How many bytes the active segments can hold as they are.
abbrev pub active_room : SharedFile → ℕ
active_room f =
    (active_count f - 1) * f.segment_capacity_bytes + filled f.segments (active_count f - 1)

pub record IsWellFormed (f : SharedFile) : Type 0 where
  pub positive : 0 < f.segment_capacity_bytes
  pub bounded : f.max_capacity_bytes ≤ max_int32_atomic_counter
  pub limits :
      (k : ℕ)
      → limit f.segments k
        ≡ min f.segment_capacity_bytes (f.max_capacity_bytes - k * f.segment_capacity_bytes)
  pub fits : (k : ℕ) → filled f.segments k ≤ limit f.segments k
  pub fixed_full : FixedIsFull f.segments
  pub active : active_count f ≤ length f.segments
  pub full : (k : ℕ) → k + 1 < active_count f → filled f.segments k ≡ f.segment_capacity_bytes
  pub sized : f.meta.size ≤ active_room f

-- `f'` differs from `f` in its segments and in the slots of the file lock at most.
pub record Frame (f f' : SharedFile) : Type 0 where
  pub same_db : f'.db_filename ≡ f.db_filename
  pub same_path : f'.pathname ≡ f.pathname
  pub same_max : f'.max_capacity_bytes ≡ f.max_capacity_bytes
  pub same_capacity : f'.segment_capacity_bytes ≡ f.segment_capacity_bytes
  pub same_size : f'.meta.size ≡ f.meta.size
  pub same_active : f'.meta.active_segment_count ≡ f.meta.active_segment_count
  pub same_counters : f'.meta.counters ≡ f.meta.counters
  pub same_transaction : f'.meta.transaction ≡ f.meta.transaction

-- `ss'` has the bytes of `ss`, with more room at some places.
pub record SameBytes (ss ss' : List Segment) : Type 0 where
  pub count : length ss' ≡ length ss
  pub same_limit : (k : ℕ) → limit ss' k ≡ limit ss k
  pub same_bytes : (k o : ℕ) → get_or (contents_at ss' k) o 0 ≡ get_or (contents_at ss k) o 0
  pub no_less : (k : ℕ) → filled ss k ≤ filled ss' k
  pub fits' : ((k : ℕ) → filled ss k ≤ limit ss k) → (k : ℕ) → filled ss' k ≤ limit ss' k
  pub fixed_full' : FixedIsFull ss → FixedIsFull ss'
