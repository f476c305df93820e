-- ===== src/SharedFile/Capacity.antt =====
-- Capacity of a segmented file (src/memoryWriteAheadSharedRuntime.ts): setActiveSegmentCount,
-- growSegment, findSegmentAtOffset, ensureFileCapacity and ensureMemoryWriteAheadFileCapacity.
use mathlib.Core.List.{◌++◌}
use memory_write_ahead_vfs.Base.{
  Result, ok, err, ℕ, zero, suc, ◌+◌, ◌-◌, ◌*◌, ◌/◌, Bool, true, false, ◌||◌, Option, none, some,
  List, max, min, length, get_elem?, take, drop, set, replicate, ltb, leb, ◌==◌, if◌then◌else◌,
}
use memory_write_ahead_vfs.Counter.{bump}
use memory_write_ahead_vfs.SharedFile.{
  CapacityMode, growable, fixed, Segment, SharedFile, FileError, capacity_exceeded,
  segment_capacity_exceeded, fixed_segment_cannot_grow, segment_catalog_exhausted, Call, Progress,
  min_segment_count, with_words, with_counters, byte_length, sum_bytes, get_active_segment_count,
  get_active_file_capacity_bytes, raise_peaks,
}

-- Math.ceil(a / b); the source divides by a segment capacity only, which is positive.
abbrev pub ceil_div : ℕ → ℕ → ℕ
ceil_div a b = (a + b - 1) / b

unfoldable pub desired_segment_count : SharedFile → ℕ → ℕ
desired_segment_count f bytes =
    if bytes == 0
    then min_segment_count
    else max min_segment_count (ceil_div bytes f.segment_capacity_bytes)

abbrev pub store_active_segment_count : SharedFile → ℕ → SharedFile
store_active_segment_count f next = record f {
  meta = record (f.meta) { active_segment_count = next };
}

-- The reclaim counters, which move only when segments drop out of the active ones.
unfoldable pub count_reclaimed : SharedFile → ℕ → ℕ → SharedFile
unfolding bump
count_reclaimed f next previous =
    if ltb next previous
    then with_counters
        (λ c. record c {
          reclaimed_segment_count = bump c.reclaimed_segment_count (previous - next);
          reclaimed_bytes =
              bump c.reclaimed_bytes (sum_bytes (take (previous - next) (drop next f.segments)));
        })
        f
    else f

unfoldable pub set_active_segment_count : SharedFile → ℕ → SharedFile
unfolding get_active_segment_count count_reclaimed raise_peaks
set_active_segment_count f segment_count =
    let previous = get_active_segment_count f in
    let next = max min_segment_count (min segment_count (length f.segments)) in
    raise_peaks (store_active_segment_count (count_reclaimed f next previous) next)

-- `SharedArrayBuffer.prototype.grow`: the new bytes are 0.
abbrev pub grow_buffer : List ℕ → ℕ → List ℕ
grow_buffer contents byte_length = contents ++ replicate (byte_length - length contents) 0

abbrev grow_by_mode : CapacityMode → Segment → ℕ → Result FileError (Segment × Bool)
grow_by_mode growable segment required_bytes =
    ok (record segment { contents = grow_buffer segment.contents required_bytes }, true)
grow_by_mode fixed segment required_bytes = err fixed_segment_cannot_grow

unfoldable pub grow_segment : Segment → ℕ → Result FileError (Segment × Bool)
grow_segment segment required_bytes =
    if leb required_bytes (byte_length segment)
    then ok (segment, false)
    else (if ltb segment.max_capacity_bytes required_bytes
        then err segment_capacity_exceeded
        else grow_by_mode segment.capacity_mode segment required_bytes)

pub record SegmentEntry : Type 0 where
  pub segment : Segment
  pub segment_index : ℕ
  pub segment_offset : ℕ
  pub segment_start_offset : ℕ

unfoldable pub find_segment_at_offset : SharedFile → ℕ → Option SegmentEntry
find_segment_at_offset f logical_offset =
    let segment_index = logical_offset / f.segment_capacity_bytes in
    elim (get_elem? f.segments segment_index) [
      | none ↦ none
      | some segment ↦ some (record {
        segment = segment;
        segment_index = segment_index;
        segment_offset = logical_offset - segment_index * f.segment_capacity_bytes;
        segment_start_offset = segment_index * f.segment_capacity_bytes;
      })
    ]

abbrev pub put_segment : ℕ → Segment → SharedFile → SharedFile
put_segment i s f = record f { segments = set f.segments i s }

abbrev pub required_segment_bytes : SharedFile → Segment → ℕ → ℕ → ℕ
required_segment_bytes f segment index required =
    min segment.max_capacity_bytes (max 0 (required - index * f.segment_capacity_bytes))

-- The `for` loop of ensureFileCapacity: `rounds` segments from `index` on. It returns didGrowSegment.
unfoldable pub grow_segments : Progress → ℕ → ℕ → ℕ → Bool → Call Bool
unfolding grow_segment
grow_segments on_progress required zero index did_grow f = (ok did_grow, f)
grow_segments on_progress required (suc rounds) index did_grow f =
    elim (get_elem? f.segments index) [
      | none ↦ (err segment_catalog_exhausted, f)
      | some segment ↦
          elim (grow_segment segment (required_segment_bytes f segment index required)) [
            | err e ↦ (err e, f)
            | ok (grown, did) ↦
                grow_segments on_progress required rounds (index + 1) (did || did_grow)
                  (with_words on_progress (put_segment index grown f))
          ]
    ]

unfoldable pub settle_capacity : ℕ → ℕ → Bool → SharedFile → SharedFile
unfolding set_active_segment_count
settle_capacity desired active did_grow f =
    if ltb active desired
    then set_active_segment_count f desired
    else (if did_grow then raise_peaks f else f)

abbrev pub settle_grown :
    ℕ → ℕ → Result FileError Bool × SharedFile → Result FileError (Unit {0}) × SharedFile
settle_grown desired active (err e, f) = (err e, f)
settle_grown desired active (ok did_grow, f) = (ok tt, settle_capacity desired active did_grow f)

unfoldable pub ensure_file_capacity : Progress → ℕ → Call (Unit {0})
unfolding get_active_segment_count get_active_file_capacity_bytes desired_segment_count
    grow_segments settle_capacity
ensure_file_capacity on_progress required f =
    if ltb f.max_capacity_bytes required
    then (err capacity_exceeded, f)
    else (let active = get_active_segment_count f in
        if leb required (get_active_file_capacity_bytes f active)
        then (ok tt, f)
        else (let desired = desired_segment_count f required in
            settle_grown desired active
              (grow_segments on_progress required (desired - (active - 1)) (active - 1) false f)))
