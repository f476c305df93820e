-- ===== src/SharedFile/Writes.antt =====
-- The copy loop of writeMemoryWriteAheadFile puts the caller's bytes at their offsets and changes no
-- other byte (src/memoryWriteAheadSharedRuntime.ts).
use native.Mathlib.Decide.{dec_lt}
use memory_write_ahead_vfs.Base.{
  Result, ok, ℕ, zero, suc, ◌+◌, ◌-◌, ◌*◌, ◌/◌, ◌%◌, ◌≤◌, ◌<◌, ◌≡◌, ap, ◌∙◌, ◌&&◌, List, min,
  length, get_or, take, drop, ltb, leb, if◌then◌else◌, arith, length-take, length-drop, get_or-take,
  get_or-drop, lt→ltb, le→ltb_false,
}
use memory_write_ahead_vfs.SharedFile.{SharedFile, Segment, FileError, Progress, byte_length}
use memory_write_ahead_vfs.SharedFile.Transfer.{write_loop}
use memory_write_ahead_vfs.SharedFile.Arith.{div_within}
use memory_write_ahead_vfs.SharedFile.Invariant.{active_room, byte_at, IsWellFormed, Frame}
use memory_write_ahead_vfs.SharedFile.Invariant.Segments.{filled-some}
use memory_write_ahead_vfs.SharedFile.Growth.{Frame-trans}
use memory_write_ahead_vfs.SharedFile.Offsets.{filled-le-capacity, find-stored}
use memory_write_ahead_vfs.SharedFile.Store.{
  byte_of-after, stored, stored-room, stored-IsWellFormed, stored-Frame,
}

-- After `written` bytes of `input` have gone to the offsets from `offset` on.
pub record Copied (f0 : SharedFile) (input : List ℕ) (offset written : ℕ) (f : SharedFile)
    : Type 0 where
  pub frame : Frame f0 f
  pub wf : IsWellFormed f
  pub same_room : active_room f ≡ active_room f0
  pub bytes :
      (i : ℕ)
      → byte_at f i ≡ (
          if leb offset i && ltb i (offset + written)
          then get_or input (i - offset) 0
          else byte_at f0 i)

module _ {f : SharedFile} (w : IsWellFormed f) (p : Progress) (input : List ℕ) (written l : ℕ)
    (inside : l < active_room f) where
  abbrev pub c : ℕ
  c = f.segment_capacity_bytes

  abbrev pub segment : Segment
  segment = (find-stored w l inside).0

  abbrev pub n : ℕ
  n = min (byte_length segment - l % c) (length input - written)

  abbrev pub share : List ℕ
  share = take n (drop written input)

  abbrev pub after : SharedFile
  after = stored w p (l / c) (find-stored w l inside).1 (l % c) share

  length-share : length share ≡ n
  length-share = omega (arith, length-take n (drop written input), length-drop written input)

  pub progress : written < length input → 1 ≤ n
  progress more = omega (arith, (find-stored w l inside).2)

  get_or-share : (x : ℕ) → x < n → get_or share x 0 ≡ get_or input (written + x) 0
  get_or-share x h = get_or-take n (drop written input) x 0 h ∙ get_or-drop written input x 0

  write_loop-next :
      (fuel : ℕ)
      → written < length input
      → write_loop p input (suc fuel) written l f
        ≡ write_loop p input fuel (written + n) (l + n) after
  unfolding write_loop
  write_loop-next fuel more =
      rw (lt→ltb written (length input) more, write_loop)
        (rw ((find-stored w l inside).3, write_loop))

  bytes-after :
      (i : ℕ)
      → byte_at after i
        ≡ (if leb l i && ltb i (l + n) then get_or input (written + (i - l)) 0 else byte_at f i)
  bytes-after i =
      let (s, here, within, found) = find-stored w l inside in
      let (lo, hi, m, _) = div_within l c w.positive in
      let fit : l % c + length share ≤ byte_length s = omega (arith, length-share) in
      let le : byte_length s ≤ c =
        omega (arith, filled-some f.segments (l / c) here, filled-le-capacity w l inside (l / c)) in
      let start : l / c * c + l % c ≡ l = omega arith in
      let raw =
        rw (start, length-share) at
          (byte_of-after f.segments (l / c) here (l % c) share c i w.positive fit le) in
      ground (arith, raw, get_or-share (i - l))

  pub after-Copied :
      {f0 : SharedFile} (offset : ℕ)
      → l ≡ offset + written
      → Copied f0 input offset written f
      → Copied f0 input offset (written + n) after
  after-Copied offset e h = record {
    frame = Frame-trans h.frame (stored-Frame w p (l / c) (find-stored w l inside).1 (l % c) share);
    wf = stored-IsWellFormed w p (l / c) (find-stored w l inside).1 (l % c) share;
    same_room = stored-room w p (l / c) (find-stored w l inside).1 (l % c) share ∙ h.same_room;
    bytes = λ i. ground (arith, bytes-after i, h.bytes i);
  }

write_loop-done :
    (p : Progress) (input : List ℕ) (fuel written l : ℕ) (f : SharedFile)
    → length input ≤ written
    → write_loop p input (suc fuel) written l f ≡ (ok written, f)
unfolding write_loop
write_loop-done p input fuel written l f h = rw (le→ltb_false written (length input) h, write_loop)

-- With room for the whole input and fuel for the rest of it the loop ends, having copied it all.
pub write_loop-Copied :
    {f0 : SharedFile} (p : Progress) (input : List ℕ) (offset fuel written l : ℕ) (f : SharedFile)
    → offset + length input ≤ active_room f0
    → l ≡ offset + written
    → length input < fuel + written
    → written ≤ length input
    → Copied f0 input offset written f
    → (f' : SharedFile) × (write_loop p input fuel written l f ≡ (ok (length input), f'))
      × Copied f0 input offset (length input) f'
write_loop-Copied p input offset zero written l f room e enough most h = absurd (omega arith)
write_loop-Copied p input offset (suc fuel) written l f room e enough most h =
    elim (dec_lt written (length input)) [
      | yes more ↦
          let inside : l < active_room f = omega (arith, h.same_room) in
          let k = n h.wf p input written l inside in
          let (f', run, copied) =
            write_loop-Copied p input offset fuel (written + k) (l + k)
              (after h.wf p input written l inside) room (omega arith)
              (omega (arith, progress h.wf p input written l inside more)) (omega arith)
              (after-Copied h.wf p input written l inside offset e h) in
          (f', write_loop-next h.wf p input written l inside fuel more ∙ run, copied)
      | no done ↦
          let all : written ≡ length input = omega arith in
          (
            f,
            write_loop-done p input fuel written l f (omega arith)
                ∙ ap {B = Result FileError ℕ × SharedFile} (λ t. (ok t, f)) all,
            rw all at h,
          )
    ]
