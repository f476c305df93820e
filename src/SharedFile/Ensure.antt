-- ===== src/SharedFile/Ensure.antt =====
-- ensureFileCapacity on a well-formed file: up to the capacity it succeeds, makes the room that was
-- asked for and changes no byte (src/memoryWriteAheadSharedRuntime.ts).
use native.Mathlib.Decide.{dec_le}
use memory_write_ahead_vfs.Base.{
  ok, ℕ, ◌+◌, ◌-◌, ◌*◌, ◌≤◌, ◌<◌, ◌≡◌, refl, Bool, false, length, arith, le→leb, lt→leb_false,
  le→ltb_false, ◌∙◌, ap,
}
use memory_write_ahead_vfs.SharedFile.{
  SharedFile, Progress, get_active_segment_count, get_active_file_capacity_bytes,
}
use memory_write_ahead_vfs.SharedFile.Capacity.{
  desired_segment_count, settle_capacity, grow_segments, ensure_file_capacity,
}
use memory_write_ahead_vfs.SharedFile.Capacity.{settle_grown}
use memory_write_ahead_vfs.SharedFile.Arith.{mul_mono, lt_of_mul-lt, pred_mul, suc_mul}
use memory_write_ahead_vfs.SharedFile.Invariant.{
  filled, active_count, active_room, IsWellFormed, Frame, SameBytes,
}
use memory_write_ahead_vfs.SharedFile.Invariant.Segments.{get_elem?-some}
use memory_write_ahead_vfs.SharedFile.Activate.{Resized, settle_capacity-Resized}
use memory_write_ahead_vfs.SharedFile.Growth.{Grows, grow_segments-Grows, SameBytes-refl}
use memory_write_ahead_vfs.SharedFile.Desired.{Desired, desired_segment_count-Desired}

-- Everything but the segments' room, the active count, the counters and the lock's slots.
pub record Ensured (f : SharedFile) (required : ℕ) (f' : SharedFile) : Type 0 where
  pub same_db : f'.db_filename ≡ f.db_filename
  pub same_path : f'.pathname ≡ f.pathname
  pub same_max : f'.max_capacity_bytes ≡ f.max_capacity_bytes
  pub same_capacity : f'.segment_capacity_bytes ≡ f.segment_capacity_bytes
  pub same_size : f'.meta.size ≡ f.meta.size
  pub same_transaction : f'.meta.transaction ≡ f.meta.transaction
  pub kept : SameBytes f.segments f'.segments
  pub more : active_count f ≤ active_count f'
  pub room : required ≤ active_room f'

-- The arithmetic of the loop's result `g`: with `d` segments active the file is well formed again.
module _ {f g : SharedFile} {required d : ℕ} (w : IsWellFormed f)
    (le : required ≤ f.max_capacity_bytes) (short : active_room f < required)
    (des : Desired f required d)
    (grew : Grows f required (d - (active_count f - 1)) (active_count f - 1) g) where
  abbrev c : ℕ
  c = f.segment_capacity_bytes

  active-le-desired : active_count f ≤ d
  active-le-desired =
      omega (arith, lt_of_mul-lt (active_count f - 1) d c (omega (arith, des.enough)))

  -- Below the last desired segment all are full.
  full' : (k : ℕ) → k + 1 < d → filled g.segments k ≡ c
  full' k h = elim (dec_le (active_count f - 1) k) [
    | yes inside ↦ omega (
      arith,
      grew.reached k inside (omega (arith, active-le-desired)),
      grew.kept.fits' w.fits k,
      grew.kept.same_limit k,
      w.limits k,
      des.strict (omega arith),
      mul_mono (k + 1) (d - 1) c (omega arith),
      suc_mul k c,
    )
    | no before ↦ omega (
      arith,
      w.full k (omega arith),
      grew.kept.no_less k,
      grew.kept.fits' w.fits k,
      grew.kept.same_limit k,
      w.limits k,
    )
  ]

  room' : required ≤ (d - 1) * c + filled g.segments (d - 1)
  room' = omega (
    arith,
    grew.reached (d - 1) (omega (arith, active-le-desired))
        (omega (arith, active-le-desired, des.one)),
    w.limits (d - 1),
    des.enough,
    des.one,
    pred_mul d c,
  )

  -- Once `d` segments are active.
  module _ {f' : SharedFile} (r : Resized g d f.meta.size f') where
    settled-IsWellFormed : IsWellFormed f'
    settled-IsWellFormed = record {
      positive = ground (arith, w.positive, grew.frame.same_capacity, r.same_capacity);
      bounded = ground (arith, w.bounded, grew.frame.same_max, r.same_max);
      limits = λ k.
          rw
            (
              r.same_segments,
              r.same_capacity,
              r.same_max,
              grew.frame.same_capacity,
              grew.frame.same_max,
              grew.kept.same_limit k,
            )
            (w.limits k);
      fits = λ k. rw r.same_segments (grew.kept.fits' w.fits k);
      fixed_full = rw r.same_segments (grew.kept.fixed_full' w.fixed_full);
      active = rw (r.new_active, r.same_segments, grew.kept.count) des.there;
      full = λ k h.
          rw (r.same_segments, r.same_capacity, grew.frame.same_capacity)
            (full' k (omega (arith, h, r.new_active)));
      sized =
          rw (r.new_active, r.new_size, r.same_segments, r.same_capacity, grew.frame.same_capacity)
            (omega (arith, w.sized, short, room'));
    }

    settled-Ensured : Ensured f required f'
    settled-Ensured = record {
      same_db = r.same_db ∙ grew.frame.same_db;
      same_path = r.same_path ∙ grew.frame.same_path;
      same_max = r.same_max ∙ grew.frame.same_max;
      same_capacity = r.same_capacity ∙ grew.frame.same_capacity;
      same_size = r.new_size;
      same_transaction = r.same_transaction ∙ grew.frame.same_transaction;
      kept = rw r.same_segments grew.kept;
      more = omega (arith, r.new_active, active-le-desired);
      room = rw (r.new_active, r.same_segments, r.same_capacity, grew.frame.same_capacity) room';
    }

capacity-eq-room :
    {f : SharedFile}
    → IsWellFormed f
    → get_active_file_capacity_bytes f (get_active_segment_count f) ≡ active_room f
unfolding get_active_file_capacity_bytes get_active_segment_count
capacity-eq-room {f} w =
    let (s, here) = get_elem?-some f.segments (active_count f - 1) (omega (arith, w.active)) in
    ground (arith, here)

ensure-enough :
    (p : Progress) (required : ℕ) (f : SharedFile)
    → required ≤ f.max_capacity_bytes
    → required ≤ get_active_file_capacity_bytes f (get_active_segment_count f)
    → ensure_file_capacity p required f ≡ (ok tt, f)
unfolding ensure_file_capacity
ensure-enough p required f le room =
    rw (le→ltb_false f.max_capacity_bytes required le) (rw (le→leb required _ room))

ensure-grow :
    (p : Progress) (required : ℕ) (f : SharedFile) {did : Bool} {g : SharedFile}
    → required ≤ f.max_capacity_bytes
    → get_active_file_capacity_bytes f (get_active_segment_count f) < required
    → grow_segments p required
        (desired_segment_count f required - (active_count f - 1))
        (active_count f - 1)
        false
        f
      ≡ (ok did, g)
    → ensure_file_capacity p required f
      ≡ (ok tt, settle_capacity (desired_segment_count f required) (active_count f) did g)
unfolding ensure_file_capacity
ensure-grow p required f le room run = rw (le→ltb_false f.max_capacity_bytes required le) (
    rw (lt→leb_false required _ room)
      (ap (settle_grown (desired_segment_count f required) (active_count f)) run))

Ensured-refl : (f : SharedFile) (required : ℕ) → required ≤ active_room f → Ensured f required f
Ensured-refl f required room = record {
  same_db = refl;
  same_path = refl;
  same_max = refl;
  same_capacity = refl;
  same_size = refl;
  same_transaction = refl;
  kept = SameBytes-refl f.segments;
  more = omega arith;
  room = room;
}

settled-Resized :
    {f g : SharedFile} (d : ℕ) (did : Bool)
    → Frame f g
    → 1 ≤ d
    → d ≤ length g.segments
    → active_count f ≤ d
    → Resized g d f.meta.size (settle_capacity d (active_count f) did g)
settled-Resized {f} {g} d did frame one there le =
    let e : active_count g ≡ active_count f = rw frame.same_active refl in
    rw (← e) (rw (← frame.same_size) (settle_capacity-Resized d did g one there (rw e le)))

-- Asked for what fits, ensureFileCapacity returns on a well-formed file: the file stays well formed,
-- has the room, and keeps every byte, its size and its segments' limits.
pub ensure_file_capacity-Ensured :
    (p : Progress) (required : ℕ) {f : SharedFile}
    → IsWellFormed f
    → required ≤ f.max_capacity_bytes
    → (f' : SharedFile) × (ensure_file_capacity p required f ≡ (ok tt, f'))
      × IsWellFormed f'
      × Ensured f required f'
ensure_file_capacity-Ensured p required {f} w le = elim (dec_le required (active_room f)) [
  | yes enough ↦ (
    f,
    ensure-enough p required f le (rw (capacity-eq-room w) enough),
    w,
    Ensured-refl f required enough,
  )
  | no short ↦
      let d = desired_segment_count f required in
      let lt : active_room f < required = omega arith in
      let des = desired_segment_count-Desired required w le in
      let (did, g, run, grew) =
        grow_segments-Grows p required (d - (active_count f - 1)) (active_count f - 1) false f
          w.fits w.fixed_full (omega (arith, des.there, w.active)) in
      let r =
        settled-Resized d did grew.frame des.one (rw grew.kept.count des.there)
          (active-le-desired w le lt des grew) in
      (
        settle_capacity d (active_count f) did g,
        ensure-grow p required f le (rw (capacity-eq-room w) lt) run,
        settled-IsWellFormed w le lt des grew r,
        settled-Ensured w le lt des grew r,
      )
]
