-- ===== src/SharedFile/Reads.antt =====
-- readMemoryWriteAheadFile on a well-formed file returns, and fills the caller's buffer with the
-- file's bytes up to the end of the file (src/memoryWriteAheadSharedRuntime.ts).
use native.Mathlib.Decide.{dec_lt}
use memory_write_ahead_vfs.Base.{
  ok, ℕ, zero, suc, ◌+◌, ◌-◌, ◌*◌, ◌/◌, ◌%◌, ◌≤◌, ◌<◌, ◌≡◌, inl, inr, ◌⊎◌, refl, sym, ap, ◌∙◌, ◌&&◌,
  some, List, min, length, get_or, take, drop, overwrite, ltb, leb, if◌then◌else◌, arith,
  length-overwrite, length-take, length-drop, get_or-take, get_or-drop, get_or-overwrite,
  lt→leb_false, le→leb,
}
use memory_write_ahead_vfs.SharedFile.{Segment, SharedFile}
use memory_write_ahead_vfs.SharedFile.Capacity.{SegmentEntry}
use memory_write_ahead_vfs.SharedFile.Transfer.{
  Reading, read_entry, bytes_to_copy, read_loop, read_memory_write_ahead_file,
}
use memory_write_ahead_vfs.SharedFile.Invariant.{active_room, byte_at, IsWellFormed}
use memory_write_ahead_vfs.SharedFile.Invariant.Segments.{contents_at-some, filled-some}
use memory_write_ahead_vfs.SharedFile.Offsets.{filled-le-capacity, find-stored, byte_of-add}

-- The buffer's first bytes are the file's from `offset` on, the others are what `target` had.
pub record Holds (f : SharedFile) (target : List ℕ) (offset : ℕ) (st : Reading) : Type 0 where
  pub same_length : length st.destination ≡ length target
  pub bytes :
      (k : ℕ)
      → get_or st.destination k 0
        ≡ (if ltb k st.bytes_read then byte_at f (offset + k) else get_or target k 0)

-- One round, at the logical offset `l`, copies `n` bytes.
module _ {f : SharedFile} (w : IsWellFormed f) (st : Reading) (l : ℕ) (below : l < f.meta.size)
    (more : st.bytes_read < length st.destination) where
  abbrev size : ℕ
  size = f.meta.size

  abbrev c : ℕ
  c = f.segment_capacity_bytes

  inside : l < active_room f
  inside = omega (arith, w.sized)

  abbrev segment : Segment
  segment = (find-stored w l inside).0

  abbrev entry : SegmentEntry
  entry = record {
    segment = segment;
    segment_index = l / c;
    segment_offset = l % c;
    segment_start_offset = l / c * c;
  }

  abbrev n : ℕ
  n = bytes_to_copy size st l entry

  read_entry-some : read_entry f size st l ≡ some entry
  read_entry-some =
      let (s, here, stored, found) = find-stored w l inside in ground (arith, found, stored)

  progress : 1 ≤ n
  progress = omega (arith, (find-stored w l inside).2)

  abbrev copied : List ℕ
  copied = take n (drop (l % c) segment.contents)

  length-copied : length copied ≡ n
  length-copied =
      omega
        (arith, length-take n (drop (l % c) segment.contents), length-drop (l % c) segment.contents)

  get_or-copied : (x : ℕ) → x < n → get_or copied x 0 ≡ byte_at f (l + x)
  get_or-copied x h =
      let (s, here, stored, found) = find-stored w l inside in
      let fit : l % c + x < c =
        omega (arith, filled-some f.segments (l / c) here, filled-le-capacity w l inside (l / c)) in
      get_or-take n (drop (l % c) s.contents) x 0 h
      ∙ get_or-drop (l % c) s.contents x 0
      ∙ sym (
          byte_of-add f.segments c l x w.positive fit
          ∙ ap (λ t. get_or t (l % c + x) 0) (contents_at-some f.segments (l / c) here))

  overwritten :
      (k : ℕ)
      → get_or (overwrite st.destination st.bytes_read copied) k 0 ≡ (
          if leb st.bytes_read k && ltb k (st.bytes_read + length copied)
          then get_or copied (k - st.bytes_read) 0
          else get_or st.destination k 0)
  overwritten k =
      get_or-overwrite st.destination st.bytes_read copied k 0 (omega (arith, length-copied))

  abbrev next : Reading
  next = record {
    bytes_read = st.bytes_read + n;
    destination = overwrite st.destination st.bytes_read copied;
  }

  next-Holds :
      (target : List ℕ) (offset : ℕ)
      → l ≡ offset + st.bytes_read
      → Holds f target offset st
      → Holds f target offset next
  next-Holds target offset e h = record {
    same_length = length-overwrite st.destination st.bytes_read copied ∙ h.same_length;
    bytes = λ k. elim (dec_lt k st.bytes_read) [
      | yes old ↦ ground (arith, overwritten k, h.bytes k, length-copied)
      | no later ↦ elim (dec_lt k (st.bytes_read + n)) [
        | yes new ↦
            let place : l + (k - st.bytes_read) ≡ offset + k = omega arith in
            let byte : byte_at f (l + (k - st.bytes_read)) ≡ byte_at f (offset + k) =
              ap (byte_at f) place in
            ground (
              arith,
              overwritten k,
              length-copied,
              get_or-copied (k - st.bytes_read) (omega arith) ∙ byte,
            )
        | no beyond ↦ ground (arith, overwritten k, h.bytes k, length-copied)
      ]
    ];
  }

read_loop-next :
    {f : SharedFile} (w : IsWellFormed f) (fuel : ℕ) (st : Reading) (l : ℕ)
    (below : l < f.meta.size) (more : st.bytes_read < length st.destination)
    → read_loop f f.meta.size (suc fuel) st l
      ≡ read_loop f f.meta.size fuel (next w st l below more) (l + n w st l below more)
unfolding read_loop
read_loop-next w fuel st l below more = rw (read_entry-some w st l below more, read_loop)

read_loop-done :
    (f : SharedFile) (fuel : ℕ) (st : Reading) (l : ℕ)
    → (length st.destination ≤ st.bytes_read) ⊎ (f.meta.size ≤ l)
    → read_loop f f.meta.size (suc fuel) st l ≡ ok st
unfolding read_loop
read_loop-done f fuel st l h = ground arith

-- What a read leaves: `n` bytes of the file in the buffer, as many as it has room for.
pub record Reads (f : SharedFile) (target : List ℕ) (offset : ℕ) (st : Reading) : Type 0 where
  pub holds : Holds f target offset st
  pub filled_bytes : st.bytes_read ≡ min (length target) (f.meta.size - offset)

read_loop-Reads :
    {f : SharedFile}
    → IsWellFormed f
    → (target : List ℕ) (offset fuel : ℕ) (st : Reading) (l : ℕ) → l ≡ offset + st.bytes_read
    → length target < fuel + st.bytes_read
    → st.bytes_read ≤ min (length target) (f.meta.size - offset)
    → Holds f target offset st
    → (r : Reading) × (read_loop f f.meta.size fuel st l ≡ ok r) × Reads f target offset r
read_loop-Reads w target offset zero st l e enough most h = absurd (omega arith)
read_loop-Reads {f} w target offset (suc fuel) st l e enough most h =
    elim (dec_lt st.bytes_read (length st.destination)) [
      | yes more ↦ elim (dec_lt l f.meta.size) [
        | yes below ↦
            let (r, run, reads) =
              read_loop-Reads w target offset fuel (next w st l below more)
                (l + n w st l below more) (omega arith) (omega (arith, progress w st l below more))
                (omega (arith, h.same_length)) (next-Holds w st l below more target offset e h) in
            (r, read_loop-next w fuel st l below more ∙ run, reads)
        | no end ↦ (
          st,
          read_loop-done f fuel st l (inr (omega arith)),
          record { holds = h; filled_bytes = omega (arith, h.same_length) },
        )
      ]
      | no done ↦ (
        st,
        read_loop-done f fuel st l (inl (omega arith)),
        record { holds = h; filled_bytes = omega (arith, h.same_length) },
      )
    ]

-- On a well-formed file a read returns: it has copied the file's bytes from `offset` on, as many as
-- the buffer has room for and the file has, and the rest of the buffer is as it was.
pub read_memory_write_ahead_file-Reads :
    {f : SharedFile} (target : List ℕ) (offset : ℕ)
    → IsWellFormed f
    → (r : Reading) × (read_memory_write_ahead_file f target offset ≡ ok r)
      × Reads f target offset r
unfolding read_memory_write_ahead_file
read_memory_write_ahead_file-Reads {f} target offset w = elim (dec_lt offset f.meta.size) [
  | yes below ↦
      let (r, run, reads) =
        read_loop-Reads w target offset (suc (length target)) start offset (omega arith)
          (omega arith) (omega arith) start-Holds in
      (r, rw (lt→leb_false f.meta.size offset below) run, reads)
  | no past ↦ (
    start,
    rw (le→leb f.meta.size offset (omega arith)),
    record { holds = start-Holds; filled_bytes = omega arith },
  )
]
  where
    start : Reading
    start = record { bytes_read = 0; destination = target }

    start-Holds : Holds f target offset start
    start-Holds = record { same_length = refl; bytes = λ k. ground arith }
