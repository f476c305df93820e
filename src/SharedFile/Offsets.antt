-- ===== src/SharedFile/Offsets.antt =====
-- Where a logical offset lies: findSegmentAtOffset on a well-formed file.
use native.Mathlib.Decide.{dec_le}
use memory_write_ahead_vfs.Base.{
  ℕ, ◌+◌, ◌-◌, ◌*◌, ◌/◌, ◌%◌, ◌≤◌, ◌<◌, ◌≡◌, some, List, get_elem?, get_or, arith, ap,
}
use memory_write_ahead_vfs.SharedFile.{Segment, SharedFile, byte_length}
use memory_write_ahead_vfs.SharedFile.Capacity.{find_segment_at_offset}
use memory_write_ahead_vfs.SharedFile.Arith.{
  mul_mono, pred_mul, lt_of_mul-lt, div_within, div_unique,
}
use memory_write_ahead_vfs.SharedFile.Invariant.{
  contents_at, filled, active_count, active_room, byte_of, IsWellFormed,
}
use memory_write_ahead_vfs.SharedFile.Invariant.Segments.{get_elem?-some}

module _ {f : SharedFile} (w : IsWellFormed f) (i : ℕ) (inside : i < active_room f) where
  abbrev c : ℕ
  c = f.segment_capacity_bytes

  pub filled-le-capacity : (k : ℕ) → filled f.segments k ≤ c
  filled-le-capacity k = omega (arith, w.fits k, w.limits k)

  segment-active : i / c < active_count f
  segment-active = lt_of_mul-lt (i / c) (active_count f) c (
      omega (
        arith,
        (div_within i c w.positive).0,
        filled-le-capacity (active_count f - 1),
        pred_mul (active_count f) c,
        mul_mono 1 (active_count f) c (omega arith),
      ))

  -- Every offset below the active room lies in stored bytes.
  pub offset-stored : i % c < filled f.segments (i / c)
  offset-stored = elim (dec_le (active_count f) (i / c + 1)) [
    | yes last ↦
        let e : active_count f - 1 ≡ i / c = omega (arith, segment-active) in
        let room : i < i / c * c + filled f.segments (i / c) = rw e at inside in
        omega (arith, room, div_within i c w.positive)
    | no before ↦ omega (arith, w.full (i / c) (omega arith), (div_within i c w.positive).3)
  ]

  pub find-stored :
      (s : Segment) × (get_elem? f.segments (i / c) ≡ some s)
      × (i % c < byte_length s)
      × (find_segment_at_offset f i
          ≡ some (record {
            segment = s;
            segment_index = i / c;
            segment_offset = i % c;
            segment_start_offset = i / c * c;
          }))
  unfolding find_segment_at_offset
  find-stored =
      let (s, here) = get_elem?-some f.segments (i / c) (omega (arith, segment-active, w.active)) in
      (
        s,
        here,
        ground (arith, here, offset-stored),
        ground (arith, here, (div_within i c w.positive).2),
      )

-- Inside one segment the offset grows with the logical one.
pub byte_of-add :
    (ss : List Segment) (c i x : ℕ)
    → 0 < c
    → i % c + x < c
    → byte_of ss c (i + x) ≡ get_or (contents_at ss (i / c)) (i % c + x) 0
byte_of-add ss c i x h lt =
    let (lo, hi, m, _) = div_within i c h in
    let q : (i + x) / c ≡ i / c = div_unique (i + x) c (i / c) (omega arith) (omega arith) in
    let r : (i + x) % c ≡ i % c + x =
      omega (arith, (div_within (i + x) c h).2, ap (λ t. t * c) q) in
    rw (q, r)
