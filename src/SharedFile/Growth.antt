-- ===== src/SharedFile/Growth.antt =====
-- Growing the segments of a file: ensureFileCapacity succeeds up to the file's capacity, makes the
-- room that was asked for, and changes no byte (src/memoryWriteAheadSharedRuntime.ts).
use memory_write_ahead_vfs.Base.{
  ok, ℕ, zero, suc, ◌+◌, ◌-◌, ◌*◌, ◌≤◌, ◌<◌, ◌≡◌, refl, Bool, true, false, some, List, min, max,
  length, get_elem?, get_or, set, arith, inl, inr, Bool-cases, ◌∙◌, ◌||◌, leb, length-set,
}
use native.Mathlib.Decide.{dec_le}
use memory_write_ahead_vfs.SharedFile.{
  Segment, SharedFile, Progress, with_words, byte_length, fixed,
}
use memory_write_ahead_vfs.SharedFile.Capacity.{
  grow_buffer, grow_segment, put_segment, required_segment_bytes, grow_segments,
}
use memory_write_ahead_vfs.SharedFile.Invariant.{
  contents_at, filled, limit, FixedIsFull, Frame, SameBytes,
}
use memory_write_ahead_vfs.SharedFile.Invariant.Segments.{
  get_elem?-set, get_elem?-lt, get_elem?-some, length-grow_buffer, get_or-grow_buffer,
}

-- What growing one segment to `n` bytes gives, when it is allowed to.
record Grown (s : Segment) (n : ℕ) (s' : Segment) : Type 0 where
  longer : byte_length s' ≡ max (byte_length s) n
  capped : s'.max_capacity_bytes ≡ s.max_capacity_bytes
  moded : s'.capacity_mode ≡ s.capacity_mode
  bytes : (o : ℕ) → get_or s'.contents o 0 ≡ get_or s.contents o 0

grow_segment-Grown :
    (s : Segment) (n : ℕ)
    → n ≤ s.max_capacity_bytes
    → (s.capacity_mode ≡ fixed → byte_length s ≡ s.max_capacity_bytes)
    → (s' : Segment) × (did : Bool) × (grow_segment s n ≡ ok (s', did)) × Grown s n s'
unfolding grow_segment
grow_segment-Grown s n h full = elim (Bool-cases (leb n (byte_length s))) [
  | inl enough ↦ (
    s,
    false,
    ground arith,
    record { longer = ground arith; capped = refl; moded = refl; bytes = λ o. refl },
  )
  | inr short ↦ (
    record s { contents = grow_buffer s.contents n },
    true,
    ground arith,
    record {
      longer = length-grow_buffer s.contents n;
      capped = refl;
      moded = refl;
      bytes = λ o. get_or-grow_buffer s.contents n o;
    },
  )
]

module _ (ss : List Segment) (k : ℕ) {s s' : Segment} {n : ℕ} (here : get_elem? ss k ≡ some s)
    (g : Grown s n s') where
  filled-set : (j : ℕ) → filled ss j ≤ filled (set ss k s') j
  filled-set j = ground (arith, get_elem?-set ss k j s', g.longer)

  limit-set : (j : ℕ) → limit (set ss k s') j ≡ limit ss j
  limit-set j = ground (arith, get_elem?-set ss k j s', g.capped)

  bytes-set : (j o : ℕ) → get_or (contents_at (set ss k s') j) o 0 ≡ get_or (contents_at ss j) o 0
  bytes-set j o = ground (arith, get_elem?-set ss k j s', g.bytes o)

  fits-set :
      n ≤ s.max_capacity_bytes
      → ((j : ℕ) → filled ss j ≤ limit ss j)
      → (j : ℕ) → filled (set ss k s') j ≤ limit (set ss k s') j
  fits-set room fits j = ground (arith, get_elem?-set ss k j s', g.longer, g.capped, fits j)

  FixedIsFull-set : n ≤ s.max_capacity_bytes → FixedIsFull ss → FixedIsFull (set ss k s')
  FixedIsFull-set room full j t e m = ground (
    arith,
    get_elem?-set ss k j s',
    get_elem?-lt ss k here,
    g.longer,
    g.capped,
    g.moded,
    full j t,
    full k s here,
  )

  SameBytes-set : n ≤ s.max_capacity_bytes → SameBytes ss (set ss k s')
  SameBytes-set room = record {
    count = length-set ss k s';
    same_limit = limit-set;
    same_bytes = bytes-set;
    no_less = filled-set;
    fits' = fits-set room;
    fixed_full' = FixedIsFull-set room;
  }

  reached-set : n ≤ filled (set ss k s') k
  reached-set = ground (arith, get_elem?-set ss k k s', get_elem?-lt ss k here, g.longer)

pub SameBytes-trans : {a b c : List Segment} → SameBytes a b → SameBytes b c → SameBytes a c
SameBytes-trans p q = record {
  count = omega (arith, p.count, q.count);
  same_limit = λ k. omega (arith, p.same_limit k, q.same_limit k);
  same_bytes = λ k o. q.same_bytes k o ∙ p.same_bytes k o;
  no_less = λ k. omega (arith, p.no_less k, q.no_less k);
  fits' = λ h. q.fits' (p.fits' h);
  fixed_full' = λ h. q.fixed_full' (p.fixed_full' h);
}

pub SameBytes-refl : (a : List Segment) → SameBytes a a
SameBytes-refl a = record {
  count = refl;
  same_limit = λ k. refl;
  same_bytes = λ k o. refl;
  no_less = λ k. omega arith;
  fits' = λ h. h;
  fixed_full' = λ h. h;
}

pub Frame-trans : {a b c : SharedFile} → Frame a b → Frame b c → Frame a c
Frame-trans p q = record {
  same_db = q.same_db ∙ p.same_db;
  same_path = q.same_path ∙ p.same_path;
  same_max = q.same_max ∙ p.same_max;
  same_capacity = q.same_capacity ∙ p.same_capacity;
  same_size = q.same_size ∙ p.same_size;
  same_active = q.same_active ∙ p.same_active;
  same_counters = q.same_counters ∙ p.same_counters;
  same_transaction = q.same_transaction ∙ p.same_transaction;
}

pub Frame-refl : (a : SharedFile) → Frame a a
Frame-refl a = record {
  same_db = refl;
  same_path = refl;
  same_max = refl;
  same_capacity = refl;
  same_size = refl;
  same_active = refl;
  same_counters = refl;
  same_transaction = refl;
}

-- A change of segments and lock slots alone.
pub Frame-put :
    (p : Progress) (k : ℕ) (s : Segment) (f : SharedFile)
    → Frame f (with_words p (put_segment k s f))
Frame-put p k s f = record {
  same_db = refl;
  same_path = refl;
  same_max = refl;
  same_capacity = refl;
  same_size = refl;
  same_active = refl;
  same_counters = refl;
  same_transaction = refl;
}

-- What the loop over `rounds` segments from `index` on makes of `f`.
pub record Grows (f : SharedFile) (required rounds index : ℕ) (f' : SharedFile) : Type 0 where
  pub frame : Frame f f'
  pub kept : SameBytes f.segments f'.segments
  pub reached :
      (k : ℕ)
      → index ≤ k
      → k < index + rounds
      → min (limit f.segments k) (required - k * f.segment_capacity_bytes) ≤ filled f'.segments k

Grows-next :
    {f g f' : SharedFile} (required rounds index : ℕ)
    → Frame f g
    → SameBytes f.segments g.segments
    → min (limit f.segments index) (required - index * f.segment_capacity_bytes)
      ≤ filled g.segments index
    → Grows g required rounds (index + 1) f'
    → Grows f required (suc rounds) index f'
Grows-next {f} {g} {f'} required rounds index frame kept here rest = record {
  frame = Frame-trans frame rest.frame;
  kept = SameBytes-trans kept rest.kept;
  reached = λ k lo hi. elim (dec_le (index + 1) k) [
    | yes later ↦
        ground (arith, rest.reached k later (omega arith), kept.same_limit k, frame.same_capacity)
    | no now ↦
        let e : k ≡ index = omega arith in rw e (omega (arith, here, rest.kept.no_less index))
  ];
}

grow_segments-step :
    (p : Progress) (required rounds index : ℕ) (did : Bool) (f : SharedFile) {s s' : Segment}
    {d : Bool}
    → get_elem? f.segments index ≡ some s
    → grow_segment s (required_segment_bytes f s index required) ≡ ok (s', d)
    → grow_segments p required (suc rounds) index did f
      ≡ grow_segments p required rounds
          (index + 1)
          (d || did)
          (with_words p (put_segment index s' f))
unfolding grow_segments
grow_segments-step p required rounds index did f here step = ground arith

-- In a file whose segments are within their limits the loop runs to its end.
pub grow_segments-Grows :
    (p : Progress) (required rounds index : ℕ) (did : Bool) (f : SharedFile)
    → ((k : ℕ) → filled f.segments k ≤ limit f.segments k)
    → FixedIsFull f.segments
    → index + rounds ≤ length f.segments
    → (did' : Bool) × (f' : SharedFile) × (grow_segments p required rounds index did f
        ≡ (ok did', f'))
      × Grows f required rounds index f'
unfolding grow_segments
grow_segments-Grows p required zero index did f fits full le = (
  did,
  f,
  refl,
  record {
    frame = Frame-refl f;
    kept = SameBytes-refl f.segments;
    reached = λ k lo hi. absurd (omega arith);
  },
)
grow_segments-Grows p required (suc rounds) index did f fits full le =
    let (s, here) = get_elem?-some f.segments index (omega arith) in
    let n = required_segment_bytes f s index required in
    let (s', d, step, g) = grow_segment-Grown s n (omega arith) (full index s here) in
    let f1 = with_words p (put_segment index s' f) in
    let same = SameBytes-set f.segments index here g (omega arith) in
    let (did', f', run, rest) =
      grow_segments-Grows p required rounds (index + 1) (d || did) f1 (same.fits' fits)
        (same.fixed_full' full) (omega (arith, same.count)) in
    (
      did',
      f',
      grow_segments-step p required rounds index did f here step ∙ run,
      Grows-next required rounds index (Frame-put p index s' f) same
          (ground (arith, here, reached-set f.segments index here g)) rest,
    )
