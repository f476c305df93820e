-- ===== src/Vfs/Io/SharedWrites.antt =====
-- Writes to an attached database, read by another connection (src/MemoryWriteAheadVFS.ts).
use memory_write_ahead_vfs.Base.{
  ℕ, ◌+◌, ◌-◌, ◌≤◌, ◌<◌, ◌≡◌, refl, sym, ap, ◌∙◌, Bool, true, ◌&&◌, none, some, List, length,
  get_or, get_elem?, set, get_elem?-set, leb, ltb, if◌then◌else◌, ok, arith, le→leb, lt→ltb,
  list_ext,
}
use mathlib.Core.Path.{subst}
use memory_write_ahead_vfs.SharedFile.{SharedFile}
use memory_write_ahead_vfs.SharedFile.Invariant.{IsWellFormed, byte_at}
use memory_write_ahead_vfs.AccessHandle.{write_handle}
use memory_write_ahead_vfs.AccessHandle.Laws.{Acquires, write_handle-writes}
use memory_write_ahead_vfs.Vfs.{Platform, shared_handle, Session, is_main_db, sqlite_ok}
use memory_write_ahead_vfs.Vfs.Io.{
  FileLocking, finish_read, j_read, j_write, read_handle_of, write_handle_of,
}
use memory_write_ahead_vfs.Vfs.Io.Reads.{IsRead, finish_shared-IsRead}

read_back :
    (i j : ℕ) (source buffer : List ℕ) (offset : ℕ) (f f' : SharedFile) (got : List ℕ)
    → j < length buffer
    → length buffer ≡ length source
    → length buffer ≤ f'.meta.size - offset
    → get_or got j 0 ≡ (if ltb j (f'.meta.size - offset) then byte_at f' (offset + j) else 0)
    → byte_at f' (offset + j) ≡ (
        if leb offset (offset + j) && ltb (offset + j) (offset + length source)
        then get_or source (offset + j - offset) 0
        else byte_at f (offset + j))
    → get_or got j 0 ≡ get_or source j 0
read_back i j source buffer offset f f' got below same room read written =
    let back : offset + j - offset ≡ j = omega arith in
    read
    ∙ (rw (lt→ltb j (f'.meta.size - offset) (omega (arith, below, room))) refl
        ∙ (written
            ∙ rw
                (
                  le→leb offset (offset + j) (omega arith),
                  lt→ltb (offset + j) (offset + length source) (omega (arith, below, same)),
                  back,
                )
                refl))

module _ {W L : Type 0} where
  -- A session of an attached database, whose handle is on the shared file `i`.
  pub record IsOn (i : ℕ) (s : Session W L) : Type 0 where
    pub main : is_main_db s.file ≡ true
    pub no_write_ahead : s.file.write_ahead ≡ none
    pub is_closed : Bool
    pub handle : s.file.access_handle ≡ some (shared_handle i is_closed)

  module _ (p : Platform W L) (k : FileLocking) where
    j_write-shared :
        (i : ℕ) (source : List ℕ) (offset : ℕ) (s : Session W L) (f : SharedFile)
        → IsOn i s
        → get_elem? s.files i ≡ some f
        → (write_handle k.owner k.now k.acquire source offset f).0 ≡ ok (length source)
        → j_write k p offset source s ≡ (
          sqlite_ok,
          record s {
            files = set s.files i (write_handle k.owner k.now k.acquire source offset f).1;
          },
        )
    unfolding j_write write_handle_of
    j_write-shared i source offset s f on found returns =
        rw (on.main, on.no_write_ahead, on.handle, found, returns) refl

    j_read-shared :
        (i : ℕ) (buffer : List ℕ) (offset : ℕ) (t : Session W L) (f : SharedFile)
        → IsOn i t
        → get_elem? t.files i ≡ some f
        → IsWellFormed f
        → IsRead
            (f.meta.size - offset)
            (λ j. byte_at f (offset + j))
            buffer
            t
            (j_read p offset buffer t)
    unfolding j_read
    j_read-shared i buffer offset t f on found wf =
        let run : j_read p offset buffer t
            ≡ finish_read buffer t
                (read_handle_of (some (shared_handle i on.is_closed)) buffer offset t) =
          ap (λ r. finish_read buffer t r) (rw (on.main, on.no_write_ahead, on.handle) refl) in
        subst (λ x. IsRead (f.meta.size - offset) (λ j. byte_at f (offset + j)) buffer t x)
          (sym run) (finish_shared-IsRead i on.is_closed offset buffer t f found wf)

    -- What one connection writes to an attached database within the file's capacity, under a file lock that it
    -- gets, another one reads back: the write succeeds, and a read of as many bytes at the same offset, of
    -- the files that the write has left, fills its buffer with the source.
    pub j_read-j_write :
        (i : ℕ) (source buffer : List ℕ) (offset : ℕ) (s t : Session W L) (f : SharedFile)
        → Acquires k.owner k.acquire
        → IsOn i s
        → IsOn i t
        → get_elem? s.files i ≡ some f
        → IsWellFormed f
        → offset + length source ≤ f.max_capacity_bytes
        → length buffer ≡ length source
        → t.files ≡ (j_write k p offset source s).1.files
        → ((j_write k p offset source s).0 ≡ sqlite_ok)
          × (j_read p offset buffer t ≡ (sqlite_ok, source, t))
    j_read-j_write i source buffer offset s t f acquires on on' found wf fits same files =
        let f' : SharedFile = (write_handle k.owner k.now k.acquire source offset f).1 in
        let (returns, unlocked, wf', size', bytes') =
          write_handle-writes k.owner k.now k.acquire source offset acquires wf fits in
        let run = j_write-shared i source offset s f on found returns in
        let found' : get_elem? t.files i ≡ some f' =
          ap (λ fs. get_elem? fs i) (files ∙ ap (λ x. x.1.files) run)
          ∙ get_elem?-set s.files i f' found in
        let (code, length', bytes, same_session) =
          j_read-shared i buffer offset t f' on' found' wf' in
        let room : length buffer ≤ f'.meta.size - offset = omega (arith, size', same) in
        let answers : (j_read p offset buffer t).0 ≡ sqlite_ok =
          code ∙ rw (le→leb (length buffer) (f'.meta.size - offset) room) refl in
        let reads : (j_read p offset buffer t).1 ≡ source =
          list_ext _ source 0 (length' ∙ same) (λ j lt.
            read_back i j source buffer offset f f' (j_read p offset buffer t).1
              (omega (arith, lt, length')) same room (bytes j (omega (arith, lt, length')))
              (bytes' (offset + j))) in
        (ap (λ x. x.0) run, λ x. (answers x, reads x, same_session x))
