-- ===== src/SharedFile/WriteFile.antt =====
-- writeMemoryWriteAheadFile on a well-formed file, and the read after it
-- (src/memoryWriteAheadSharedRuntime.ts).
use mathlib.Core.Path.{subst}
use memory_write_ahead_vfs.Base.{
  Result, ok, ℕ, suc, ◌+◌, ◌-◌, ◌*◌, ◌/◌, ◌%◌, ◌≤◌, ◌<◌, ◌≡◌, refl, sym, ap, ap₂, ◌∙◌, true, false,
  List, [], ◌∷◌, min, length, take, ◌==◌, arith, Bool-cases, inl, inr, ==_iff,
}
use memory_write_ahead_vfs.SharedFile.{SharedFile, FileError, Progress, byte_length, with_words}
use memory_write_ahead_vfs.SharedFile.Transfer.{
  store_bytes, write_loop, copy_share, copy_from_first,
}
use memory_write_ahead_vfs.SharedFile.Capacity.{SegmentEntry}
use memory_write_ahead_vfs.SharedFile.Invariant.{active_room, IsWellFormed}
use memory_write_ahead_vfs.SharedFile.Growth.{Frame-refl}
use memory_write_ahead_vfs.SharedFile.Offsets.{find-stored}
use memory_write_ahead_vfs.SharedFile.Writes.{Copied, n, after, after-Copied, write_loop-Copied}

take-length : (xs : List ℕ) → take (length xs) xs ≡ xs
take-length [] = refl
take-length (x ∷ xs) = ap (λ t. x ∷ t) (take-length xs)

pub start-Copied :
    {f : SharedFile} (input : List ℕ) (offset : ℕ) → IsWellFormed f → Copied f input offset 0 f
start-Copied {f} input offset w = record {
  frame = Frame-refl f;
  wf = w;
  same_room = refl;
  bytes = λ i. ground arith;
}

-- The first segment's share, in the terms of the loop.
module _ {f : SharedFile} (w : IsWellFormed f) (p : Progress) (input : List ℕ) (l : ℕ)
    (inside : l < active_room f) where
  abbrev k : ℕ
  k = n w p input 0 l inside

  abbrev first : SharedFile
  first = after w p input 0 l inside

  first_share :
      k ≡ min (byte_length (find-stored w l inside).0 - l % f.segment_capacity_bytes) (length input)
  first_share = omega arith

  abbrev entry : SegmentEntry
  entry = record {
    segment = (find-stored w l inside).0;
    segment_index = l / f.segment_capacity_bytes;
    segment_offset = l % f.segment_capacity_bytes;
    segment_start_offset = l / f.segment_capacity_bytes * f.segment_capacity_bytes;
  }

  copy_from_first-share : copy_from_first p input l f ≡ copy_share p input l entry k f
  unfolding copy_from_first
  copy_from_first-share =
      rw ((find-stored w l inside).3, copy_from_first)
        (ap (λ m. copy_share p input l entry m f) (sym first_share))

  copy_share-part :
      (k == length input) ≡ false
      → copy_share p input l entry k f ≡ write_loop p input (suc (length input)) k (l + k) first
  unfolding copy_share
  copy_share-part differs = rw differs

  copy_share-all :
      (k == length input) ≡ true → copy_share p input l entry k f ≡ (ok (length input), first)
  unfolding copy_share
  copy_share-all same =
      let e : k ≡ length input = (==_iff k (length input)).0 same in
      let whole : take k input ≡ input = ap (λ m. take m input) e ∙ take-length input in
      rw same (
        ap₂ {C = Result FileError ℕ × SharedFile}
          (λ m bytes. (ok m, with_words p (store_bytes entry bytes f))) e (sym whole))

  first-Copied : Copied f input l k first
  first-Copied =
      let e : 0 + k ≡ k = omega arith in
      rw e at (after-Copied w p input 0 l inside l (omega arith) (start-Copied input l w))

  pub copy_from_first-Copied :
      0 < length input
      → l + length input ≤ active_room f
      → (f' : SharedFile) × (copy_from_first p input l f ≡ (ok (length input), f'))
        × Copied f input l (length input) f'
  copy_from_first-Copied some_bytes room = elim (Bool-cases (k == length input)) [
    | inl same ↦
        let e : k ≡ length input = (==_iff k (length input)).0 same in
        (
          first,
          copy_from_first-share ∙ copy_share-all same,
          subst (λ t. Copied f input l t first) e first-Copied,
        )
    | inr differs ↦
        let (f', run, copied) =
          write_loop-Copied p input l (suc (length input)) k (l + k) first room refl (omega arith)
            (omega arith) first-Copied in
        (f', copy_from_first-share ∙ (copy_share-part differs ∙ run), copied)
  ]
