-- ===== src/SharedFile/NewFile.antt =====
-- A file that createSharedFile returns is well formed and empty
-- (src/memoryWriteAheadSharedRuntime.ts).
use native.Mathlib.Decide.{dec_lt}
use Prim.Native.String.{String}
use memory_write_ahead_vfs.Base.{
  ok, ℕ, zero, suc, ◌+◌, ◌-◌, ◌*◌, ◌/◌, ◌%◌, ◌≤◌, ◌<◌, ◌≡◌, refl, ◌∙◌, ◌⊎◌, inl, inr, ap, Bool,
  true, List, [], ◌∷◌, max, min, length, get_or, replicate, ◌==◌, if◌then◌else◌, arith,
  length-replicate, get_or-append_replicate,
}
use memory_write_ahead_vfs.Counter.{max_int32_atomic_counter}
use memory_write_ahead_vfs.SharedFile.{no_meta, growable, fixed, Segment, SharedFile, byte_length}
use memory_write_ahead_vfs.SharedFile.Capacity.{ceil_div}
use memory_write_ahead_vfs.SharedFile.Create.{
  makes_growable, Host, create_shared_segment, create_segment_at, create_segments,
  create_shared_file,
}
use memory_write_ahead_vfs.SharedFile.Arith.{mul_mono, ceil_div_bounds}
use memory_write_ahead_vfs.SharedFile.Invariant.{
  contents_at, filled, limit, byte_at, active_count, FixedIsFull, IsWellFormed,
}

-- Growable buffers, or the permission to do without.
abbrev pub CanCreate : Host → Bool → Type 0
CanCreate host fallback = (host.support ≡ makes_growable) ⊎ (fallback ≡ true)

get_or-replicate : (n o : ℕ) → get_or {A = ℕ} (replicate n 0) o 0 ≡ 0
get_or-replicate n o = get_or-append_replicate [] n o 0

-- A fresh segment: its limit, its length and its zeros.
record Fresh (s : Segment) (initial limit : ℕ) : Type 0 where
  capped : s.max_capacity_bytes ≡ limit
  within : byte_length s ≤ limit
  started : initial ≤ byte_length s
  fixed_full : s.capacity_mode ≡ fixed → byte_length s ≡ limit
  zeros : (o : ℕ) → get_or s.contents o 0 ≡ 0

growable_segment : ℕ → ℕ → Segment
growable_segment initial m = record {
  capacity_mode = growable;
  contents = replicate initial 0;
  max_capacity_bytes = m;
}

fixed_segment : ℕ → Segment
fixed_segment m = record { capacity_mode = fixed; contents = replicate m 0; max_capacity_bytes = m }

growable_segment-Fresh :
    (initial m : ℕ) → initial ≤ m → Fresh (growable_segment initial m) initial m
unfolding growable_segment
growable_segment-Fresh initial m le = record {
  capped = refl;
  within = omega (arith, length-replicate {A = ℕ} initial 0);
  started = omega (arith, length-replicate {A = ℕ} initial 0);
  fixed_full = λ e. cc;
  zeros = get_or-replicate initial;
}

fixed_segment-Fresh : (initial m : ℕ) → initial ≤ m → Fresh (fixed_segment m) initial m
unfolding fixed_segment
fixed_segment-Fresh initial m le = record {
  capped = refl;
  within = omega (arith, length-replicate {A = ℕ} m 0);
  started = omega (arith, length-replicate {A = ℕ} m 0);
  fixed_full = λ e. length-replicate m 0;
  zeros = get_or-replicate m;
}

create_shared_segment-cases :
    (host : Host) (initial m : ℕ) (fallback : Bool)
    → CanCreate host fallback
    → (create_shared_segment host initial m fallback ≡ ok (growable_segment initial m))
      ⊎ (create_shared_segment host initial m fallback ≡ ok (fixed_segment m))
unfolding create_shared_segment growable_segment fixed_segment
create_shared_segment-cases host initial m fallback can = ground arith

create_shared_segment-Fresh :
    (host : Host) (initial m : ℕ) (fallback : Bool)
    → CanCreate host fallback
    → initial ≤ m
    → (s : Segment) × (create_shared_segment host initial m fallback ≡ ok s) × Fresh s initial m
create_shared_segment-Fresh host initial m fallback can le =
    elim (create_shared_segment-cases host initial m fallback can) [
      | inl e ↦ (growable_segment initial m, e, growable_segment-Fresh initial m le)
      | inr e ↦ (fixed_segment m, e, fixed_segment-Fresh initial m le)
    ]

-- The segments that `Array.from` makes, from `index` on.
record FreshFrom (c m index rounds : ℕ) (ss : List Segment) : Type 0 where
  count : length ss ≡ rounds
  limits : (k : ℕ) → k < rounds → limit ss k ≡ min c (m - (index + k) * c)
  beyond : (k : ℕ) → rounds ≤ k → limit ss k ≡ 0
  within : (k : ℕ) → filled ss k ≤ limit ss k
  fixed_full : FixedIsFull ss
  zeros : (k o : ℕ) → get_or (contents_at ss k) o 0 ≡ 0

FreshFrom-nil : (c m index : ℕ) → FreshFrom c m index 0 []
FreshFrom-nil c m index = record {
  count = refl;
  limits = λ k h. absurd (omega arith);
  beyond = λ k h. refl;
  within = λ k. omega arith;
  fixed_full = λ k s e. cc;
  zeros = λ k o. refl;
}

module _ {c m rounds initial : ℕ} (index : ℕ) {s : Segment} {ss : List Segment}
    (first : Fresh s initial (min c (m - index * c)))
    (rest : FreshFrom c m (index + 1) rounds ss) where
  limits-cons : (k : ℕ) → k < suc rounds → limit (s ∷ ss) k ≡ min c (m - (index + k) * c)
  limits-cons zero h =
      first.capped ∙ ap (λ t. min c (m - t * c)) (let e : index ≡ index + 0 = omega arith in e)
  limits-cons (suc k) h =
      rest.limits k (omega arith)
      ∙ ap (λ t. min c (m - t * c)) (let e : index + 1 + k ≡ index + suc k = omega arith in e)

  beyond-cons : (k : ℕ) → suc rounds ≤ k → limit (s ∷ ss) k ≡ 0
  beyond-cons zero h = absurd (omega arith)
  beyond-cons (suc k) h = rest.beyond k (omega arith)

  within-cons : (k : ℕ) → filled (s ∷ ss) k ≤ limit (s ∷ ss) k
  within-cons zero = omega (arith, first.within, first.capped)
  within-cons (suc k) = rest.within k

  FixedIsFull-cons : FixedIsFull (s ∷ ss)
  FixedIsFull-cons zero t e h = ground (arith, first.fixed_full, first.capped)
  FixedIsFull-cons (suc k) t e h = rest.fixed_full k t e h

  zeros-cons : (k o : ℕ) → get_or (contents_at (s ∷ ss) k) o 0 ≡ 0
  zeros-cons zero o = first.zeros o
  zeros-cons (suc k) o = rest.zeros k o

  FreshFrom-cons : FreshFrom c m index (suc rounds) (s ∷ ss)
  FreshFrom-cons = record {
    count = ap suc rest.count;
    limits = limits-cons;
    beyond = beyond-cons;
    within = within-cons;
    fixed_full = FixedIsFull-cons;
    zeros = zeros-cons;
  }

-- What the callback asks for at `index`.
abbrev initial_at : ℕ → ℕ → ℕ → ℕ
initial_at c m index = if index == 0 then min c (min c (m - index * c)) else 0

create_segment_at-Fresh :
    (host : Host) (c m : ℕ) (fallback : Bool) (index : ℕ)
    → CanCreate host fallback
    → (s : Segment) × (create_segment_at host c m fallback index ≡ ok s)
      × Fresh s (initial_at c m index) (min c (m - index * c))
unfolding create_segment_at
create_segment_at-Fresh host c m fallback index can =
    create_shared_segment-Fresh host (initial_at c m index) (min c (m - index * c)) fallback can
      (ground arith)

create_segments-FreshFrom :
    (host : Host) (c m : ℕ) (fallback : Bool) (rounds index : ℕ)
    → CanCreate host fallback
    → (ss : List Segment) × (create_segments host c m fallback rounds index ≡ ok ss)
      × FreshFrom c m index rounds ss
unfolding create_segments
create_segments-FreshFrom host c m fallback zero index can = ([], refl, FreshFrom-nil c m index)
create_segments-FreshFrom host c m fallback (suc rounds) index can =
    let (s, made, first) = create_segment_at-Fresh host c m fallback index can in
    let (ss, rest, fresh) = create_segments-FreshFrom host c m fallback rounds (index + 1) can in
    (s ∷ ss, ground (arith, made, rest), FreshFrom-cons index first fresh)

-- With growable buffers, or where fixed ones are allowed, createSharedFile returns a well-formed
-- file of the capacity asked for: its size is 0, one segment is active, and every byte is 0.
pub create_shared_file-IsWellFormed :
    (host : Host) (db_filename pathname : String) (c m : ℕ) (fallback : Bool)
    → CanCreate host fallback
    → 0 < c
    → 0 < m
    → m ≤ max_int32_atomic_counter
    → (f : SharedFile) × (create_shared_file host db_filename pathname c m fallback ≡ ok f)
      × IsWellFormed f
      × (f.max_capacity_bytes ≡ m)
      × (f.meta.size ≡ 0)
      × (active_count f ≡ 1)
      × ((i : ℕ) → byte_at f i ≡ 0)
      × (f.segment_capacity_bytes ≡ c)
      × (f.pathname ≡ pathname)
      × (f.db_filename ≡ host.url_pathname db_filename)
unfolding create_shared_file
create_shared_file-IsWellFormed host db path c m fallback can pos_c pos_m small =
    let count = max 1 (ceil_div m c) in
    let (ss, made, fresh) = create_segments-FreshFrom host c m fallback count 0 can in
    let f : SharedFile = record {
      db_filename = host.url_pathname db;
      max_capacity_bytes = m;
      meta = record no_meta { active_segment_count = 1 };
      pathname = path;
      segment_capacity_bytes = c;
      segments = ss;
    } in
    let covers : m ≤ count * c =
      omega
        (arith, ceil_div_bounds m c pos_c pos_m, mul_mono (ceil_div m c) count c (omega arith)) in
    (
      f,
      ground (arith, made),
      record {
        positive = pos_c;
        bounded = small;
        limits = λ k. elim (dec_lt k count) [
          | yes lt ↦
              fresh.limits k lt ∙ ap (λ t. min c (m - t * c)) (let e : 0 + k ≡ k = omega arith in e)
          | no ge ↦
              omega (arith, fresh.beyond k (omega arith), mul_mono count k c (omega arith), covers)
        ];
        fits = fresh.within;
        fixed_full = fresh.fixed_full;
        active = omega (arith, fresh.count);
        full = λ k h. absurd (omega arith);
        sized = omega arith;
      },
      refl,
      refl,
      refl,
      λ i. fresh.zeros (i / c) (i % c),
      refl,
      refl,
      refl,
    )
