-- ===== src/SharedFile/Create.antt =====
-- Creating shared files (src/memoryWriteAheadSharedRuntime.ts): createSharedSegmentData,
-- createSharedSegment, createSharedFile and the errors of an engine without growable buffers.
use Prim.Native.String.{String}
use memory_write_ahead_vfs.Base.{
  Result, ok, err, ◌>>=◌, ℕ, zero, suc, ◌+◌, ◌-◌, ◌*◌, Bool, true, false, Option, some, List, [],
  ◌∷◌, max, min, replicate, ◌==◌, if◌then◌else◌,
}
use memory_write_ahead_vfs.SharedFile.{
  CapacityMode, growable, fixed, Segment, SharedFile, min_segment_count, no_meta,
}
use memory_write_ahead_vfs.SharedFile.Capacity.{ceil_div}

-- What `new SharedArrayBuffer(n, { maxByteLength })` does in this engine: it throws, it ignores the
-- options and makes a plain buffer, or it makes a growable one.
pub data SharedBufferSupport : Type 0 where
  throws ignores_options makes_growable : SharedBufferSupport

-- The JavaScript realm, and the URL parser behind normalizeMemoryWriteAheadPathname.
pub record Host : Type 0 where
  pub support : SharedBufferSupport
  pub cross_origin_isolated : Option Bool
  pub url_pathname : String → String

pub data SupportError : Type 0 where
  not_cross_origin_isolated growable_unsupported : SupportError

unfoldable pub create_growable_shared_array_buffer_support_error : Host → SupportError
create_growable_shared_array_buffer_support_error host = elim host.cross_origin_isolated [
  | some false ↦ not_cross_origin_isolated
  | _ ↦ growable_unsupported
]

abbrev fixed_or_throw : Host → ℕ → Bool → Result SupportError (CapacityMode × List ℕ)
fixed_or_throw host max_bytes true = ok (fixed, replicate max_bytes 0)
fixed_or_throw host max_bytes false = err (create_growable_shared_array_buffer_support_error host)

unfoldable pub create_shared_segment_data :
    Host → ℕ → ℕ → Bool → Result SupportError (CapacityMode × List ℕ)
unfolding create_growable_shared_array_buffer_support_error
create_shared_segment_data host initial_bytes max_bytes allow_fixed_capacity_fallback =
    elim host.support [
      | makes_growable ↦ ok (growable, replicate initial_bytes 0)
      | throws ↦ fixed_or_throw host max_bytes allow_fixed_capacity_fallback
      | ignores_options ↦ fixed_or_throw host max_bytes allow_fixed_capacity_fallback
    ]

unfoldable pub create_shared_segment : Host → ℕ → ℕ → Bool → Result SupportError Segment
unfolding create_shared_segment_data
create_shared_segment host initial_bytes max_bytes fallback = do
  (mode, bytes) ← create_shared_segment_data host initial_bytes max_bytes fallback
  ok (record { capacity_mode = mode; contents = bytes; max_capacity_bytes = max_bytes })

-- The callback of `Array.from`, for the segment at `index`.
unfoldable pub create_segment_at : Host → ℕ → ℕ → Bool → ℕ → Result SupportError Segment
unfolding create_shared_segment
create_segment_at host capacity max_capacity_bytes fallback index =
    let segment_max_bytes = min capacity (max_capacity_bytes - index * capacity) in
    create_shared_segment host (if index == 0 then min capacity segment_max_bytes else 0)
      segment_max_bytes fallback

unfoldable pub create_segments : Host → ℕ → ℕ → Bool → ℕ → ℕ → Result SupportError (List Segment)
unfolding create_segment_at
create_segments host capacity max_capacity_bytes fallback zero index = ok []
create_segments host capacity max_capacity_bytes fallback (suc rounds) index = do
  segment ← create_segment_at host capacity max_capacity_bytes fallback index
  rest ← create_segments host capacity max_capacity_bytes fallback rounds (index + 1)
  ok (segment ∷ rest)

unfoldable pub create_shared_file :
    Host → String → String → ℕ → ℕ → Bool → Result SupportError SharedFile
unfolding create_segments
create_shared_file host db_filename pathname initial_capacity_bytes max_capacity_bytes fallback = do
  segments ←
      create_segments host initial_capacity_bytes max_capacity_bytes fallback
        (max min_segment_count (ceil_div max_capacity_bytes initial_capacity_bytes)) 0
  ok (record {
    db_filename = host.url_pathname db_filename;
    max_capacity_bytes = max_capacity_bytes;
    meta = record no_meta { active_segment_count = min_segment_count };
    pathname = pathname;
    segment_capacity_bytes = initial_capacity_bytes;
    segments = segments;
  })
