-- ===== src/SharedFile/Desired.antt =====
-- The segment count that a size asks for in a well-formed file: desiredSegmentCount
-- (src/memoryWriteAheadSharedRuntime.ts).
use memory_write_ahead_vfs.Base.{
  ℕ, zero, suc, ◌-◌, ◌*◌, ◌≤◌, ◌<◌, ◌≡◌, refl, List, [], ◌∷◌, length, arith,
}
use memory_write_ahead_vfs.SharedFile.{Segment, SharedFile}
use memory_write_ahead_vfs.SharedFile.Capacity.{ceil_div, desired_segment_count}
use memory_write_ahead_vfs.SharedFile.Arith.{lt_of_mul-lt, ceil_div_bounds}
use memory_write_ahead_vfs.SharedFile.Invariant.{limit, IsWellFormed}

limit-length : (ss : List Segment) → limit ss (length ss) ≡ 0
limit-length [] = refl
limit-length (s ∷ ss) = limit-length ss

-- The segments of a well-formed file reach its capacity.
pub max-le-segments :
    {f : SharedFile}
    → IsWellFormed f
    → f.max_capacity_bytes ≤ length f.segments * f.segment_capacity_bytes
max-le-segments {f} w =
    omega (arith, limit-length f.segments, w.limits (length f.segments), w.positive)

-- The segment count that a size asks for: enough, and none too many.
pub record Desired (f : SharedFile) (required d : ℕ) : Type 0 where
  pub enough : required ≤ d * f.segment_capacity_bytes
  pub least : (d - 1) * f.segment_capacity_bytes ≤ required
  pub strict : 0 < required → (d - 1) * f.segment_capacity_bytes < required
  pub one : 1 ≤ d
  pub there : d ≤ length f.segments

desired_positive :
    (f : SharedFile) (n : ℕ)
    → 1 ≤ ceil_div (suc n) f.segment_capacity_bytes
    → desired_segment_count f (suc n) ≡ ceil_div (suc n) f.segment_capacity_bytes
unfolding desired_segment_count
desired_positive f n h = ground arith

ceil-Desired :
    {f : SharedFile} (n : ℕ)
    → IsWellFormed f
    → suc n ≤ f.max_capacity_bytes
    → Desired f (suc n) (ceil_div (suc n) f.segment_capacity_bytes)
ceil-Desired {f} n w le =
    let c = f.segment_capacity_bytes in
    let d = ceil_div (suc n) c in
    let (upper, lower, one) = ceil_div_bounds (suc n) c w.positive (omega arith) in
    record {
      enough = upper;
      least = omega (arith, lower);
      strict = λ h. lower;
      one = one;
      there = omega (
        arith,
        one,
        lt_of_mul-lt (d - 1) (length f.segments) c (omega (arith, lower, max-le-segments w)),
      );
    }

pub desired_segment_count-Desired :
    {f : SharedFile} (required : ℕ)
    → IsWellFormed f
    → required ≤ f.max_capacity_bytes
    → Desired f required (desired_segment_count f required)
unfolding desired_segment_count
desired_segment_count-Desired {f} zero w le = record {
  enough = omega arith;
  least = ground arith;
  strict = λ h. absurd (omega arith);
  one = ground arith;
  there = ground (arith, w.active);
}
desired_segment_count-Desired {f} (suc n) w le =
    let desired = ceil-Desired n w le in rw (desired_positive f n desired.one) desired
