-- ===== src/Vfs/Io/Temporary.antt =====
-- A temporary file through its handlers (src/MemoryWriteAheadVFS.ts): a sequence of jWrite and jTruncate,
-- and the reads and the size after it, against an array of bytes.
use memory_write_ahead_vfs.Base.{
  ℕ, ◌+◌, ◌-◌, ◌≡◌, refl, sym, ap, ◌∙◌, min, max, false, ◌&&◌, some, List, [], ◌∷◌, map, length,
  get_or, get_elem?, set, get_elem?-set, leb, ltb, if◌then◌else◌, ok, lt→ltb,
}
use mathlib.Core.Path.{subst}
use memory_write_ahead_vfs.LocalFile.{LocalFile, read, write, truncate, get_size}
use memory_write_ahead_vfs.LocalFile.Laws.{
  IsSized, byte, write-bytes, read-bytes, grow_buffer-fits, grow_buffer-bytes,
}
use memory_write_ahead_vfs.Vfs.{Platform, local_handle, Session, is_main_db, sqlite_ok}
use memory_write_ahead_vfs.Vfs.Io.{
  FileLocking, finish_read, j_read, j_write, j_truncate, j_file_size, read_handle_of,
  write_handle_of, truncate_handle_of, size_of,
}
use memory_write_ahead_vfs.Vfs.Io.Reads.{IsRead, finish_read-IsRead}

-- The calls that change a file.
pub data FileCall : Type 0 where
  writes : (offset : ℕ) → (source : List ℕ) → FileCall
  truncates : (size : ℕ) → FileCall

-- An array of bytes: how many of them are in the file, and what each is or will be.
pub record Bytes : Type 0 where
  pub size : ℕ
  pub byte_of : ℕ → ℕ

abbrev pub after_call : FileCall → Bytes → Bytes
after_call (writes offset source) b = record {
  size = max b.size (offset + length source);
  byte_of = λ i.
      if leb offset i && ltb i (offset + length source)
      then get_or source (i - offset) 0
      else b.byte_of i;
}
after_call (truncates size) b = record b { size = size }

abbrev pub after_calls : List FileCall → Bytes → Bytes
after_calls [] b = b
after_calls (c ∷ cs) b = after_calls cs (after_call c b)

module _ {W L : Type 0} (k : FileLocking) (p : Platform W L) where
  unfoldable pub handle : FileCall → Session W L → ℕ × Session W L
  unfolding j_write j_truncate
  handle (writes offset source) s = j_write k p offset source s
  handle (truncates size) s = j_truncate k p size s

  -- The codes, and the session in the end.
  abbrev pub handle_all : List FileCall → Session W L → List ℕ × Session W L
  handle_all [] s = ([], s)
  handle_all (c ∷ cs) s =
      let rest = handle_all cs (handle c s).1 in ((handle c s).0 ∷ rest.0, rest.1)

  -- The file has the size and the bytes.
  abbrev pub IsFile : Bytes → LocalFile → Type 0
  IsFile b f = IsSized f × (f.size ≡ b.size) × ((j : ℕ) → byte f j ≡ b.byte_of j)

  -- The session is that of a temporary file, with the bytes.
  pub record Represents (i : ℕ) (b : Bytes) (s : Session W L) : Type 0 where
    pub temporary : is_main_db s.file ≡ false
    pub handled : s.file.access_handle ≡ some (local_handle i)
    pub local : LocalFile
    pub found : get_elem? s.local_files i ≡ some local
    pub contents : IsFile b local

  truncate-IsFile :
      (size : ℕ) (b : Bytes) (f : LocalFile)
      → IsFile b f
      → IsFile (record b { size = size }) (truncate size f)
  unfolding truncate
  truncate-IsFile size b f (sized, same, bytes) = (
    (grow_buffer-fits f.contents size).0,
    refl,
    λ j. grow_buffer-bytes f.contents size j ∙ bytes j,
  )

  write-IsFile :
      (offset : ℕ) (source : List ℕ) (b : Bytes) (f : LocalFile)
      → IsFile b f
      → IsFile (after_call (writes offset source) b) (write source offset f).1
  write-IsFile offset source b f (sized, same, bytes) =
      let (sized', size', bytes') = write-bytes source offset f sized in
      (
        sized',
        size' ∙ ap (λ n. max n (offset + length source)) same,
        λ j.
            bytes' j
            ∙ ap
                (λ x.
                  if leb offset j && ltb j (offset + length source)
                  then get_or source (j - offset) 0
                  else x)
                (bytes j),
      )

  abbrev with_local : ℕ → LocalFile → Session W L → Session W L
  with_local i f s = record s { local_files = set s.local_files i f }

  j_write-local :
      (i : ℕ) (offset : ℕ) (source : List ℕ) (b : Bytes) (s : Session W L) (r : Represents i b s)
      → j_write k p offset source s ≡ (sqlite_ok, with_local i (write source offset r.local).1 s)
  unfolding j_write write_handle_of
  j_write-local i offset source b s r = rw (r.temporary, r.handled, r.found) refl

  j_truncate-local :
      (i : ℕ) (size : ℕ) (b : Bytes) (s : Session W L) (r : Represents i b s)
      → j_truncate k p size s ≡ (sqlite_ok, with_local i (truncate size r.local) s)
  unfolding j_truncate truncate_handle_of
  j_truncate-local i size b s r = rw (r.temporary, r.handled, r.found) refl

  with_local-Represents :
      (i : ℕ) (b b' : Bytes) (f : LocalFile) (s : Session W L)
      → Represents i b s
      → IsFile b' f
      → Represents i b' (with_local i f s)
  with_local-Represents i b b' f s r contents = record {
    temporary = r.temporary;
    handled = r.handled;
    local = f;
    found = get_elem?-set s.local_files i f r.found;
    contents = contents;
  }

  abbrev Handled : ℕ → Bytes → ℕ × Session W L → Type 0
  Handled i b (code, s) = (code ≡ sqlite_ok) × Represents i b s

  handle-Represents :
      (i : ℕ) (c : FileCall) (b : Bytes) (s : Session W L)
      → Represents i b s
      → Handled i (after_call c b) (handle c s)
  unfolding handle
  handle-Represents i (writes offset source) b s r =
      subst (λ out. Handled i (after_call (writes offset source) b) out)
        (sym (j_write-local i offset source b s r))
        (
          refl,
          with_local-Represents i b (after_call (writes offset source) b) _ s r
              (write-IsFile offset source b r.local r.contents),
        )
  handle-Represents i (truncates size) b s r =
      subst (λ out. Handled i (record b { size = size }) out) (sym (j_truncate-local i size b s r))
        (
          refl,
          with_local-Represents i b (record b { size = size }) _ s r
              (truncate-IsFile size b r.local r.contents),
        )

  handle_all-Represents :
      (i : ℕ) (cs : List FileCall) (b : Bytes) (s : Session W L)
      → Represents i b s
      → ((handle_all cs s).0 ≡ map (λ _. sqlite_ok) cs)
        × Represents i (after_calls cs b) (handle_all cs s).1
  handle_all-Represents i [] b s r = (refl, r)
  handle_all-Represents i (c ∷ cs) b s r =
      let (code, next) = handle-Represents i c b s r in
      let (codes, last) = handle_all-Represents i cs (after_call c b) (handle c s).1 next in
      (rw (code, codes) refl, last)

  j_file_size-local :
      (i : ℕ) (b : Bytes) (s : Session W L)
      → Represents i b s
      → j_file_size p s ≡ (sqlite_ok, b.size)
  unfolding j_file_size size_of get_size
  j_file_size-local i b s r =
      rw (r.temporary, r.handled, r.found) refl ∙ ap (λ n. (sqlite_ok, n)) r.contents.1

  j_read-local :
      (i offset : ℕ) (buffer : List ℕ) (b : Bytes) (s : Session W L)
      → Represents i b s
      → IsRead (b.size - offset) (λ j. b.byte_of (offset + j)) buffer s (j_read p offset buffer s)
  unfolding j_read read_handle_of
  j_read-local i offset buffer b s r =
      let (n, length', bytes) = read-bytes r.local buffer offset r.contents.0 in
      let out = read r.local buffer offset in
      let run : j_read p offset buffer s ≡ finish_read buffer s (ok out) =
        ap (λ x. finish_read buffer s x) {y = ok out} (rw (r.temporary, r.handled, r.found) refl) in
      subst (λ x. IsRead (b.size - offset) (λ j. b.byte_of (offset + j)) buffer s x) (sym run)
        (finish_read-IsRead (b.size - offset) out.0 (λ j. b.byte_of (offset + j)) buffer out.1 s
          (
            n ∙ ap (λ m. min (length buffer) (m - offset)) r.contents.1,
            length',
            λ j h. bytes j ∙ (rw (lt→ltb j out.0 h) refl ∙ r.contents.2 (offset + j)),
          ))

  -- Any sequence of writes and truncations of a temporary file succeeds, and afterwards jFileSize and every
  -- jRead answer as the array of bytes does on which the same calls were made: a read fills its buffer with
  -- the bytes from the offset on, or with those that there are and then zeros, under IOERR_SHORT_READ.
  pub handle_all-refines :
      (i : ℕ) (cs : List FileCall) (b : Bytes) (s : Session W L) (offset : ℕ) (buffer : List ℕ)
      → Represents i b s
      → (let (codes, t) = handle_all cs s in
          let b' = after_calls cs b in
          (codes ≡ map (λ _. sqlite_ok) cs)
          × (j_file_size p t ≡ (sqlite_ok, b'.size))
          × IsRead
              (b'.size - offset)
              (λ j. b'.byte_of (offset + j))
              buffer
              t
              (j_read p offset buffer t))
  handle_all-refines i cs b s offset buffer r =
      let (codes, t) = handle_all-Represents i cs b s r in
      (
        codes,
        j_file_size-local i (after_calls cs b) (handle_all cs s).1 t,
        j_read-local i offset buffer (after_calls cs b) (handle_all cs s).1 t,
      )
