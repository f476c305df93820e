-- ===== src/Vfs/Io.antt =====
-- The input and output handlers of an open file (src/MemoryWriteAheadVFS.ts): jRead, jWrite, jTruncate,
-- jSync and jFileSize, over the access handle of the file or its write-ahead.
pub mod Reads
pub mod Temporary
pub mod SharedWrites
use memory_write_ahead_vfs.Base.{
  ℕ, ◌-◌, ◌<◌, Bool, true, false, ◌&&◌, not, Option, none, some, List, length, take, drop,
  replicate, overwrite, leb, ltb, ◌==◌, Result, ok, err, get_elem?, set, if◌then◌else◌,
}
use memory_write_ahead_vfs.SharedFile.{LockWords, SharedFile, FileError}
use memory_write_ahead_vfs.SharedFile.Transfer.{Reading}
use memory_write_ahead_vfs.LocalFile.{LocalFile, read, write, truncate, get_size}
use memory_write_ahead_vfs.AccessHandle.{
  Acquisition, read_handle, write_handle, truncate_handle, handle_size,
}
use memory_write_ahead_vfs.Vfs.{
  sqlite_ok, sqlite_ioerr_read, sqlite_ioerr_short_read, sqlite_ioerr_write, sqlite_ioerr_truncate,
  sqlite_ioerr_fsync, VfsError, file_missing, file_error, Platform, Handle, shared_handle,
  local_handle, OpenFile, Session, Action, after, is_main_db, on_write_ahead, catch,
}

-- What the file lock of a shared file is taken with: the handle's owner id, the time, and the
-- acquisition.
pub record FileLocking : Type 0 where
  pub owner : ℕ
  pub now : ℕ
  pub acquire : LockWords → Acquisition

-- The bytes read, and the buffer then.
abbrev pub Filled : Type 0
Filled = ℕ × List ℕ

abbrev pub filled_by : Result FileError Reading → Result VfsError Filled
filled_by (err e) = err (file_error e)
filled_by (ok r) = ok (r.bytes_read, r.destination)

-- A handle refers to a file that exists; its reference is never dangling.
abbrev pub read_shared : Option SharedFile → List ℕ → ℕ → Result VfsError Filled
read_shared none buffer offset = err file_missing
read_shared (some f) buffer offset = filled_by (read_handle f buffer offset)

abbrev pub read_local : Option LocalFile → List ℕ → ℕ → Result VfsError Filled
read_local none buffer offset = err file_missing
read_local (some f) buffer offset = ok (read f buffer offset)

abbrev pub done_by : {A : Type 0} → Result FileError A → Result VfsError (Unit {0})
done_by (err e) = err (file_error e)
done_by (ok _) = ok tt

-- `pData.set(readData)`, from a page of the write-ahead.
abbrev pub page_bytes : List ℕ → ℕ → List ℕ → Filled
page_bytes buffer page_offset page =
    let read_data = take (length buffer) (drop page_offset page) in
    (length read_data, overwrite buffer 0 read_data)

-- The header is read in parts, from the first page.
abbrev pub page_offset_of : ℕ → ℕ
page_offset_of i_offset = if ltb i_offset 100 then i_offset else 0

abbrev pub is_strict : Option ℕ → Bool
is_strict none = false
is_strict (some n) = ltb 1 n

abbrev pub size_of_shared : Option SharedFile → ℕ
size_of_shared none = 0
size_of_shared (some f) = handle_size f

abbrev pub size_of_local : Option LocalFile → ℕ
size_of_local none = 0
size_of_local (some f) = get_size f

module _ {W L : Type 0} where
  unfoldable pub read_handle_of : Option Handle → List ℕ → ℕ → Session W L → Result VfsError Filled
  unfolding read_handle read
  read_handle_of none buffer offset s = ok (0, buffer)
  read_handle_of (some (shared_handle i is_closed)) buffer offset s =
      read_shared (get_elem? s.files i) buffer offset
  read_handle_of (some (local_handle i)) buffer offset s =
      read_local (get_elem? s.local_files i) buffer offset

  abbrev pub page_or_handle :
      List ℕ → ℕ → ℕ → Session W L → Result VfsError (Option (List ℕ)) → Result VfsError Filled
  page_or_handle buffer i_offset page_offset s (err e) = err e
  page_or_handle buffer i_offset page_offset s (ok (some page)) =
      ok (page_bytes buffer page_offset page)
  page_or_handle buffer i_offset page_offset s (ok none) =
      read_handle_of s.file.access_handle buffer i_offset s

  -- The code, the caller's buffer and the session then.
  abbrev pub finish_read : List ℕ → Session W L → Result VfsError Filled → ℕ × List ℕ × Session W L
  finish_read buffer s (err e) = (sqlite_ioerr_read, buffer, record s { last_error = some e })
  finish_read buffer s (ok (bytes_read, filled)) =
      if ltb bytes_read (length buffer)
      then (
        sqlite_ioerr_short_read,
        overwrite filled bytes_read (replicate (length buffer - bytes_read) 0),
        s,
      )
      else (sqlite_ok, filled, s)

  abbrev pub put_local : Option LocalFile → ℕ → (LocalFile → LocalFile) → Action W L (Unit {0})
  put_local none i change s = (err file_missing, s)
  put_local (some f) i change s = (ok tt, record s { local_files = set s.local_files i (change f) })

  abbrev pub put_shared :
      {A : Type 0}
      → Option SharedFile
      → ℕ
      → (SharedFile → Result FileError A × SharedFile)
      → Action W L (Unit {0})
  put_shared none i change s = (err file_missing, s)
  put_shared (some f) i change s =
      (done_by (change f).0, record s { files = set s.files i (change f).1 })

  module _ (p : Platform W L) where
    abbrev pub read_bytes : List ℕ → ℕ → Option W → Session W L → Result VfsError Filled
    read_bytes buffer i_offset none s = read_handle_of s.file.access_handle buffer i_offset s
    read_bytes buffer i_offset (some w) s =
        page_or_handle buffer i_offset (page_offset_of i_offset) s
          (p.read_page (i_offset - page_offset_of i_offset) w s.files)

    unfoldable pub j_read : ℕ → List ℕ → Session W L → ℕ × List ℕ × Session W L
    unfolding read_handle_of
    j_read i_offset buffer s = finish_read buffer s (
        if is_main_db s.file
        then read_bytes buffer i_offset s.file.write_ahead s
        else read_handle_of s.file.access_handle buffer i_offset s)

  abbrev pub answer : Result VfsError (Unit {0}) × Session W L → Result VfsError ℕ × Session W L
  answer out = after out (λ _ s. (ok sqlite_ok, s))

  -- `dstPageSize`: another page size than the data's, which a VACUUM may ask for.
  abbrev pub page_resize : OpenFile W L → ℕ → Option ℕ
  page_resize f data_length =
      if f.overwrite && not (elim f.page_size [ none ↦ false | some n ↦ n == data_length ])
      then f.page_size
      else none

  module _ (k : FileLocking) where
    unfoldable pub write_handle_of : Option Handle → List ℕ → ℕ → Action W L (Unit {0})
    unfolding write_handle write
    write_handle_of none source offset s = (ok tt, s)
    write_handle_of (some (shared_handle i is_closed)) source offset s =
        put_shared (get_elem? s.files i) i (write_handle k.owner k.now k.acquire source offset) s
    write_handle_of (some (local_handle i)) source offset s =
        put_local (get_elem? s.local_files i) i (λ f. (write source offset f).1) s

    unfoldable pub truncate_handle_of : Option Handle → ℕ → Action W L (Unit {0})
    unfolding truncate_handle truncate
    truncate_handle_of none size s = (ok tt, s)
    truncate_handle_of (some (shared_handle i is_closed)) size s =
        put_shared (get_elem? s.files i) i (truncate_handle k.owner k.now k.acquire size) s
    truncate_handle_of (some (local_handle i)) size s =
        put_local (get_elem? s.local_files i) i (truncate size) s

    module _ (p : Platform W L) where
      abbrev pub write_main : List ℕ → ℕ → Option W → Action W L (Unit {0})
      write_main source offset none s = write_handle_of s.file.access_handle source offset s
      write_main source offset (some w) s =
          on_write_ahead tt (p.write_page offset source (page_resize s.file (length source)))
            (some w) s

      unfoldable pub j_write : ℕ → List ℕ → Session W L → ℕ × Session W L
      unfolding write_handle_of
      j_write i_offset source s =
          catch (λ _. sqlite_ioerr_write)
            (answer (
              if is_main_db s.file
              then write_main source i_offset s.file.write_ahead s
              else write_handle_of s.file.access_handle source i_offset s))

      abbrev pub truncate_main : ℕ → Option W → Action W L (Unit {0})
      truncate_main size none s = truncate_handle_of s.file.access_handle size s
      truncate_main size (some w) s = on_write_ahead tt (p.truncate_pages size) (some w) s

      unfoldable pub j_truncate : ℕ → Session W L → ℕ × Session W L
      unfolding truncate_handle_of
      j_truncate i_size s =
          catch (λ _. sqlite_ioerr_truncate)
            (answer (
              if is_main_db s.file
              then truncate_main i_size s.file.write_ahead s
              else truncate_handle_of s.file.access_handle i_size s))

  unfoldable pub size_of : Option Handle → Session W L → ℕ
  unfolding handle_size get_size
  size_of none s = 0
  size_of (some (shared_handle i is_closed)) s = size_of_shared (get_elem? s.files i)
  size_of (some (local_handle i)) s = size_of_local (get_elem? s.local_files i)

  module _ (p : Platform W L) where
    unfoldable pub j_sync : Session W L → ℕ × Session W L
    j_sync s =
        catch (λ _. sqlite_ioerr_fsync)
          (if is_main_db s.file
            then after
                (on_write_ahead tt (p.sync (is_strict s.file.synchronous)) s.file.write_ahead s)
                (λ _ t. (ok sqlite_ok, t))
            else (ok sqlite_ok, s))

    abbrev pub main_size : Option W → Session W L → ℕ
    main_size none s = size_of s.file.access_handle s
    main_size (some w) s = p.get_file_size w

    -- The code and the size.
    unfoldable pub j_file_size : Session W L → ℕ × ℕ
    unfolding size_of
    j_file_size s = (
      sqlite_ok,
      if is_main_db s.file then main_size s.file.write_ahead s else size_of s.file.access_handle s,
    )
