-- ===== src/Vfs/Io/Reads.antt =====
-- What jRead returns (src/MemoryWriteAheadVFS.ts).
use memory_write_ahead_vfs.Base.{
  ℕ, ◌+◌, ◌-◌, ◌<◌, ◌≡◌, refl, sym, ap, ◌∙◌, min, Bool, true, Option, none, some, List, [], length,
  take, drop, replicate, overwrite, get_or, get_elem?, leb, ltb, if◌then◌else◌, ok, arith,
  Bool-cases, inl, inr, le→leb, ltb→lt, lt→ltb, ltb_false→le, lt→leb_false, get_or-overwrite,
  length-overwrite, length-replicate, get_or-append_replicate, get_or-take, get_or-drop,
  length-take, length-drop,
}
use mathlib.Core.Path.{subst}
use memory_write_ahead_vfs.SharedFile.{SharedFile}
use memory_write_ahead_vfs.SharedFile.Invariant.{IsWellFormed, byte_at}
use memory_write_ahead_vfs.SharedFile.Reads.{read_memory_write_ahead_file-Reads}
use memory_write_ahead_vfs.AccessHandle.{read_handle}
use memory_write_ahead_vfs.Vfs.{
  Platform, shared_handle, Session, is_main_db, sqlite_ok, sqlite_ioerr_short_read,
}
use memory_write_ahead_vfs.Vfs.Io.{
  Filled, filled_by, page_bytes, finish_read, j_read, read_handle_of, read_shared, page_offset_of,
}

-- A buffer of which `n` bytes were filled.
abbrev pub IsFilled : ℕ → (ℕ → ℕ) → List ℕ → Filled → Type 0
IsFilled available source buffer (n, filled) =
    (n ≡ min (length buffer) available)
    × (length filled ≡ length buffer)
    × ((i : ℕ) → i < n → get_or filled i 0 ≡ source i)

get_or-padded :
    (available n i : ℕ) (source : ℕ → ℕ) (buffer filled : List ℕ)
    → IsFilled available source buffer (n, filled)
    → n < length buffer
    → i < length buffer
    → get_or (overwrite filled n (replicate (length buffer - n) 0)) i 0
      ≡ (if ltb i available then source i else 0)
get_or-padded available n i source buffer filled (e, l, bytes) short h =
    let zeros : List ℕ = replicate (length buffer - n) 0 in
    let k : length zeros ≡ length buffer - n = length-replicate {A = ℕ} (length buffer - n) 0 in
    get_or-overwrite filled n zeros i 0 (omega (arith, k, l, short))
    ∙ elim (Bool-cases (ltb i available)) [
      | inl b ↦
          let q = ltb→lt i available b in
          rw (b, lt→leb_false n i (omega (arith, q, e, short)))
            (bytes i (omega (arith, q, e, short)))
      | inr b ↦
          let q = ltb_false→le i available b in
          rw
            (
              b,
              le→leb n i (omega (arith, q, e)),
              lt→ltb i (n + length zeros) (omega (arith, h, k, short)),
            )
            (get_or-append_replicate [] (length buffer - n) (i - n) 0)
    ]

page_bytes-IsFilled :
    (buffer page : List ℕ) (page_offset : ℕ)
    → IsFilled
        (length page - page_offset)
        (λ i. get_or page (page_offset + i) 0)
        buffer
        (page_bytes buffer page_offset page)
page_bytes-IsFilled buffer page page_offset =
    let bs = take (length buffer) (drop page_offset page) in
    let l : length bs ≡ min (length buffer) (length page - page_offset) =
      omega (
        arith,
        length-take (length buffer) (drop page_offset page),
        length-drop page_offset page,
      ) in
    (
      l,
      length-overwrite buffer 0 bs,
      λ i h.
          let z : i - 0 ≡ i = omega arith in
          get_or-overwrite buffer 0 bs i 0 (omega (arith, l))
          ∙ rw (le→leb 0 i (omega arith), lt→ltb i (0 + length bs) (omega (arith, h)), z)
              (get_or-take (length buffer) (drop page_offset page) i 0 (omega (arith, h, l))
                ∙ get_or-drop page_offset page i 0),
    )

module _ {W L : Type 0} where
  -- The outcome of a read where the file has `available` bytes from the offset on: the whole buffer is
  -- theirs, or the code is IOERR_SHORT_READ and the rest of the buffer is zero.
  abbrev pub IsRead : ℕ → (ℕ → ℕ) → List ℕ → Session W L → ℕ × List ℕ × Session W L → Type 0
  IsRead available source buffer s (code, buffer_then, t) =
      (code ≡ (if leb (length buffer) available then sqlite_ok else sqlite_ioerr_short_read))
      × (length buffer_then ≡ length buffer)
      × ((i : ℕ)
          → i < length buffer
          → get_or buffer_then i 0 ≡ (if ltb i available then source i else 0))
      × (t ≡ s)

  pub finish_read-IsRead :
      (available n : ℕ) (source : ℕ → ℕ) (buffer filled : List ℕ) (s : Session W L)
      → IsFilled available source buffer (n, filled)
      → IsRead available source buffer s (finish_read buffer s (ok (n, filled)))
  finish_read-IsRead available n source buffer filled s (e, l, bytes) =
      elim (Bool-cases (ltb n (length buffer))) [
        | inl b ↦
            let short = ltb→lt n (length buffer) b in
            rw (b, lt→leb_false (length buffer) available (omega (arith, short, e)))
              (
                refl,
                length-overwrite filled n (replicate (length buffer - n) 0) ∙ l,
                λ i h. get_or-padded available n i source buffer filled (e, l, bytes) short h,
                refl,
              )
        | inr b ↦
            let all = ltb_false→le n (length buffer) b in
            rw (b, le→leb (length buffer) available (omega (arith, all, e)))
              (
                refl,
                l,
                λ i h.
                    rw (lt→ltb i available (omega (arith, h, all, e)))
                      (bytes i (omega (arith, h, all, e))),
                refl,
              )
      ]

  pub finish_shared-IsRead :
      (i : ℕ) (is_closed : Bool) (offset : ℕ) (buffer : List ℕ) (s : Session W L) (f : SharedFile)
      → get_elem? s.files i ≡ some f
      → IsWellFormed f
      → IsRead
          (f.meta.size - offset)
          (λ j. byte_at f (offset + j))
          buffer
          s
          (finish_read buffer s (read_handle_of (some (shared_handle i is_closed)) buffer offset s))
  unfolding read_handle_of read_handle
  finish_shared-IsRead i is_closed offset buffer s f e w =
      let (r, run, reads) = read_memory_write_ahead_file-Reads buffer offset w in
      let found : read_handle_of (some (shared_handle i is_closed)) buffer offset s
          ≡ ok (r.bytes_read, r.destination) =
        ap (λ o. read_shared o buffer offset) e ∙ ap filled_by run in
      subst
        (λ x.
          IsRead (f.meta.size - offset) (λ j. byte_at f (offset + j)) buffer s
            (finish_read buffer s x))
        (sym found)
        (finish_read-IsRead (f.meta.size - offset) r.bytes_read (λ j. byte_at f (offset + j)) buffer
          r.destination s
          (
            reads.filled_bytes,
            reads.holds.same_length,
            λ j h. reads.holds.bytes j ∙ rw (lt→ltb j r.bytes_read h) refl,
          ))

  -- Where the file is open on a well-formed shared file and its write-ahead returns a page or none, the
  -- primary database is read from the write-ahead where that has the page: the header's parts below 100
  -- from the page at 0, all else from the page at the offset. Otherwise it is read from the shared file. Bytes
  -- beyond the page or the file read as 0, under the code IOERR_SHORT_READ.
  pub j_read-IsRead :
      (p : Platform W L) (i : ℕ) (is_closed : Bool) (i_offset : ℕ) (buffer : List ℕ)
      (s : Session W L) (w : W) (f : SharedFile) (found : Option (List ℕ))
      → is_main_db s.file ≡ true
      → s.file.write_ahead ≡ some w
      → s.file.access_handle ≡ some (shared_handle i is_closed)
      → get_elem? s.files i ≡ some f
      → IsWellFormed f
      → p.read_page (i_offset - page_offset_of i_offset) w s.files ≡ ok found
      → (let page_offset = if ltb i_offset 100 then i_offset else 0 in
          IsRead
            (elim found [ none ↦ f.meta.size - i_offset | some page ↦ length page - page_offset ])
            (elim found [
              | none ↦ λ j. byte_at f (i_offset + j)
              | some page ↦ λ j. get_or page (page_offset + j) 0
            ])
            buffer
            s
            (j_read p i_offset buffer s))
  unfolding j_read
  j_read-IsRead p i is_closed i_offset buffer s w f none main ahead handle e wf read =
      let run : j_read p i_offset buffer s
          ≡ finish_read buffer s
              (read_handle_of (some (shared_handle i is_closed)) buffer i_offset s) =
        ap (λ r. finish_read buffer s r) (rw (main, ahead, read, handle) refl) in
      subst (λ x. IsRead (f.meta.size - i_offset) (λ j. byte_at f (i_offset + j)) buffer s x)
        (sym run) (finish_shared-IsRead i is_closed i_offset buffer s f e wf)
  j_read-IsRead p i is_closed i_offset buffer s w f (some page) main ahead handle e wf read =
      let page_offset = page_offset_of i_offset in
      let run : j_read p i_offset buffer s
          ≡ finish_read buffer s (ok (page_bytes buffer page_offset page)) =
        ap (λ r. finish_read buffer s r) {y = ok (page_bytes buffer (page_offset_of i_offset) page)}
          (rw (main, ahead, read) refl) in
      subst
        (λ x. IsRead (length page - page_offset) (λ j. get_or page (page_offset + j) 0) buffer s x)
        (sym run)
        (finish_read-IsRead (length page - page_offset) _ (λ j. get_or page (page_offset + j) 0)
          buffer _ s (page_bytes-IsFilled buffer page page_offset))
