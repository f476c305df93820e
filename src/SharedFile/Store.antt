-- ===== src/SharedFile/Store.antt =====
-- Overwriting bytes of one segment: the file stays well formed, and exactly the bytes at those
-- offsets change (src/memoryWriteAheadSharedRuntime.ts).
use native.Mathlib.Decide.{ℕ_discrete}
use memory_write_ahead_vfs.Base.{
  ℕ, ◌+◌, ◌-◌, ◌*◌, ◌/◌, ◌%◌, ◌≤◌, ◌<◌, ◌≡◌, refl, ◌∙◌, ap, false, ◌&&◌, some, List, length,
  get_elem?, get_or, set, overwrite, ltb, leb, if◌then◌else◌, arith, length-set, length-overwrite,
  get_or-overwrite,
}
use memory_write_ahead_vfs.SharedFile.{Segment, SharedFile, Progress, with_words, byte_length}
use memory_write_ahead_vfs.SharedFile.Capacity.{put_segment}
use memory_write_ahead_vfs.SharedFile.Arith.{div_within, div_unique}
use memory_write_ahead_vfs.SharedFile.Invariant.{
  filled, limit, active_count, active_room, FixedIsFull, byte_of, IsWellFormed, Frame,
}
use memory_write_ahead_vfs.SharedFile.Invariant.Segments.{get_elem?-set, get_elem?-lt}

abbrev pub overwrite_segment : Segment → ℕ → List ℕ → Segment
overwrite_segment s o bytes = record s { contents = overwrite s.contents o bytes }

module _ (ss : List Segment) (k : ℕ) {s : Segment} (here : get_elem? ss k ≡ some s) (o : ℕ)
    (bytes : List ℕ) where
  abbrev after : List Segment
  after = set ss k (overwrite_segment s o bytes)

  filled-after : (j : ℕ) → filled after j ≡ filled ss j
  filled-after j = ground (
    arith,
    get_elem?-set ss k j (overwrite_segment s o bytes),
    length-overwrite s.contents o bytes,
  )

  limit-after : (j : ℕ) → limit after j ≡ limit ss j
  limit-after j = ground (arith, get_elem?-set ss k j (overwrite_segment s o bytes))

  FixedIsFull-after : FixedIsFull ss → FixedIsFull after
  FixedIsFull-after full j t e m = ground (
    arith,
    get_elem?-set ss k j (overwrite_segment s o bytes),
    length-overwrite s.contents o bytes,
    full j t,
    full k s here,
  )

  pub byte_of-after :
      (c i : ℕ)
      → 0 < c
      → o + length bytes ≤ byte_length s
      → byte_length s ≤ c
      → byte_of after c i ≡ (
          if leb (k * c + o) i && ltb i (k * c + o + length bytes)
          then get_or bytes (i - (k * c + o)) 0
          else byte_of ss c i)
  byte_of-after c i pos fit le = elim (ℕ_discrete (i / c) k) [
    | yes same ↦
        let (lo, hi, m, _) = div_within i c pos in
        let e : i / c * c ≡ k * c = ap (λ t. t * c) same in
        let place : i % c - o ≡ i - (k * c + o) = omega arith in
        ground (
          arith,
          get_elem?-set ss k (i / c) (overwrite_segment s o bytes),
          get_elem?-lt ss k here,
          get_or-overwrite s.contents o bytes (i % c) 0 fit,
        )
    | no other ↦
        let outside : leb (k * c + o) i && ltb i (k * c + o + length bytes) ≡ false =
          ground (arith, div_unique i c k) in
        rw outside (ground (arith, get_elem?-set ss k (i / c) (overwrite_segment s o bytes)))
  ]

-- A store of bytes and a change of the lock's slots keep the file well formed.
module _ {f : SharedFile} (w : IsWellFormed f) (p : Progress) (k : ℕ) {s : Segment}
    (here : get_elem? f.segments k ≡ some s) (o : ℕ) (bytes : List ℕ) where
  abbrev pub stored : SharedFile
  stored = with_words p (put_segment k (overwrite_segment s o bytes) f)

  pub stored-room : active_room stored ≡ active_room f
  stored-room = omega (arith, filled-after f.segments k here o bytes (active_count f - 1))

  pub stored-IsWellFormed : IsWellFormed stored
  stored-IsWellFormed = record {
    positive = w.positive;
    bounded = w.bounded;
    limits = λ j. limit-after f.segments k here o bytes j ∙ w.limits j;
    fits = λ j. omega (
      arith,
      filled-after f.segments k here o bytes j,
      limit-after f.segments k here o bytes j,
      w.fits j,
    );
    fixed_full = FixedIsFull-after f.segments k here o bytes w.fixed_full;
    active = rw (length-set f.segments k (overwrite_segment s o bytes)) w.active;
    full = λ j h. filled-after f.segments k here o bytes j ∙ w.full j h;
    sized = omega (arith, stored-room, w.sized);
  }

  pub stored-Frame : Frame f stored
  stored-Frame = record {
    same_db = refl;
    same_path = refl;
    same_max = refl;
    same_capacity = refl;
    same_size = refl;
    same_active = refl;
    same_counters = refl;
    same_transaction = refl;
  }
