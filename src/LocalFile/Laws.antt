-- ===== src/LocalFile/Laws.antt =====
-- Reads, writes and truncations of the in-memory file of src/MemoryWriteAheadVFS.ts.
use memory_write_ahead_vfs.Base.{
  ℕ, ◌+◌, ◌-◌, ◌*◌, ◌≤◌, ◌≡◌, refl, ap, ◌∙◌, min, max, ◌&&◌, List, length, take, drop, replicate,
  leb, ltb, if◌then◌else◌, get_or, get_or-take, get_or-drop, get_or-append_replicate,
  get_or-overwrite, length-overwrite, length-append, length-replicate, length-take, length-drop,
  arith, Bool-cases, inl, inr, leb→le, ltb→lt, ltb_false→le, le→leb, lt→ltb, le→ltb_false,
}
use memory_write_ahead_vfs.LocalFile.{LocalFile, grow_buffer, read, truncate, write}

abbrev pub IsSized : LocalFile → Type 0
IsSized f = f.size ≤ length f.contents

abbrev pub byte : LocalFile → ℕ → ℕ
byte f i = get_or f.contents i 0

pub grow_buffer-fits :
    (b : List ℕ) (n : ℕ) → (n ≤ length (grow_buffer b n)) × (length b ≤ length (grow_buffer b n))
unfolding grow_buffer
grow_buffer-fits b n = elim (Bool-cases (leb n (length b))) [
  | inl e ↦ rw e (leb→le _ _ e, omega arith)
  | inr e ↦
      rw
        (
          e,
          length-append b (replicate (max n (max (length b * 2) 1) - length b) 0),
          length-replicate {A = ℕ} (max n (max (length b * 2) 1) - length b) 0,
        )
        (omega arith, omega arith)
]

pub grow_buffer-bytes : (b : List ℕ) (n i : ℕ) → get_or (grow_buffer b n) i 0 ≡ get_or b i 0
unfolding grow_buffer
grow_buffer-bytes b n i = elim (Bool-cases (leb n (length b))) [
  | inl e ↦ rw e refl
  | inr e ↦ rw e (get_or-append_replicate b (max n (max (length b * 2) 1) - length b) i 0)
]

-- A write leaves a file whose buffer covers its size, which is the old one or the end of the write,
-- and reads back byte by byte: the source's bytes where it was written, the old bytes elsewhere.
pub write-bytes :
    (source : List ℕ) (offset : ℕ) (f : LocalFile)
    → IsSized f
    → (let f' = (write source offset f).1 in
        IsSized f'
        × (f'.size ≡ max f.size (offset + length source))
        × ((i : ℕ)
            → byte f' i ≡ (
                if leb offset i && ltb i (offset + length source)
                then get_or source (i - offset) 0
                else byte f i)))
unfolding write
write-bytes source offset f h =
    let g = grow_buffer f.contents (offset + length source) in
    let (a, b) = grow_buffer-fits f.contents (offset + length source) in
    let l = length-overwrite g offset source in
    (
      omega (arith, a, b, h, l),
      refl,
      λ i.
          get_or-overwrite g offset source i 0 a
          ∙ ap
              (λ x.
                if leb offset i && ltb i (offset + length source)
                then get_or source (i - offset) 0
                else x)
              (grow_buffer-bytes f.contents (offset + length source) i),
    )

-- A read says how many bytes it has copied, as many as the caller's buffer has room for and the file
-- has from `offset` on; these are at the buffer's start, and the rest of it is as it was.
pub read-bytes :
    (f : LocalFile) (target : List ℕ) (offset : ℕ)
    → IsSized f
    → (let (n, target') = read f target offset in
        (n ≡ min (length target) (f.size - offset))
        × (length target' ≡ length target)
        × ((i : ℕ)
            → get_or target' i 0 ≡ (if ltb i n then byte f (offset + i) else get_or target i 0)))
unfolding read
read-bytes f target offset h =
    let begin = min offset f.size in
    let n = min (offset + length target) f.size - begin in
    let bs = take n (drop begin f.contents) in
    let l : length bs ≡ n =
      omega (arith, h, length-take n (drop begin f.contents), length-drop begin f.contents) in
    let o = λ (i : ℕ). get_or-overwrite target 0 bs i 0 (omega (arith, l)) in
    (
      omega arith,
      length-overwrite target 0 bs,
      λ i. elim (Bool-cases (ltb i n)) [
        | inl q ↦
            let p = ltb→lt i n q in
            let z : i - 0 ≡ i = omega arith in
            let y : begin + i ≡ offset + i = omega (arith, p) in
            o i
            ∙ rw (q, le→leb 0 i (omega arith), lt→ltb i (0 + length bs) (omega (arith, l, p)), z)
                (get_or-take n (drop begin f.contents) i 0 p
                  ∙ (get_or-drop begin f.contents i 0 ∙ ap (λ k. get_or f.contents k 0) y))
        | inr q ↦
            let p = ltb_false→le i n q in
            o i
            ∙ rw (q, le→leb 0 i (omega arith), le→ltb_false i (0 + length bs) (omega (arith, l, p)))
                refl
      ],
    )

-- A truncation sets the size and keeps every byte of the buffer: a file that is shrunk and then extended
-- shows its old bytes again.
pub truncate-bytes :
    (small large : ℕ) (f : LocalFile)
    → (let f' = truncate large (truncate small f) in
        IsSized f' × (f'.size ≡ large) × ((i : ℕ) → byte f' i ≡ byte f i))
unfolding truncate
truncate-bytes small large f = (
  (grow_buffer-fits (grow_buffer f.contents small) large).0,
  refl,
  λ i.
      grow_buffer-bytes (grow_buffer f.contents small) large i
      ∙ grow_buffer-bytes f.contents small i,
)
