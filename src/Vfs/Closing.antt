-- ===== src/Vfs/Closing.antt =====
-- Closing and deleting files (src/MemoryWriteAheadVFS.ts): jClose, jDelete and jAccess.
use Prim.Native.String.{String}
use memory_write_ahead_vfs.Base.{
  ℕ, Bool, true, false, ◌||◌, Option, none, some, List, [], ◌∷◌, pos, Result, ok, err, get_elem?,
  set, if◌then◌else◌,
}
use memory_write_ahead_vfs.SharedFile.{SharedFile, with_words}
use memory_write_ahead_vfs.SharedFile.Transfer.{clear_memory_write_ahead_file}
use memory_write_ahead_vfs.AttachedLock.{release_attached_database_lock}
use memory_write_ahead_vfs.Registry.Keys.{delete_key, find_key}
use memory_write_ahead_vfs.Vfs.{
  VfsError, Platform, Handle, OpenFile, Session, after, has_flag, is_main_db, on_write_ahead,
  sqlite_ok, sqlite_ioerr_close, sqlite_open_deleteonclose,
}
use memory_write_ahead_vfs.Vfs.Locking.{release_attached, change}
use memory_write_ahead_vfs.Vfs.Files.{
  Vfs, find_id, delete_id, shared_store, with_shared_store, get_memory_write_ahead_file, file_at,
  session_of, put_session,
}
use memory_write_ahead_vfs.Vfs.OpenRetry.{
  System, normalized, change_file, close_handle_of, get_write_ahead_name_from_db_name,
}
use memory_write_ahead_vfs.Vfs.Opening.{is_same}

-- The file cleared, and its lock word 0.
unfoldable pub clear_unlocked : SharedFile → SharedFile
unfolding clear_memory_write_ahead_file
clear_unlocked f = with_words (λ w. record w { lock = pos 0 }) (clear_memory_write_ahead_file f)

abbrev pub is_present : {A : Type 0} → Option A → Bool
is_present none = false
is_present (some a) = true

module _ {W L : Type 0} where
  abbrev pub cleared_at : ℕ → Option SharedFile → Vfs W L → Vfs W L
  cleared_at i none v = v
  cleared_at i (some f) v = with_shared_store (set (shared_store v) i (clear_unlocked f)) v

  abbrev pub clear_shared : Option ℕ → Vfs W L → Vfs W L
  clear_shared none v = v
  clear_shared (some i) v = cleared_at i (get_elem? (shared_store v) i) v

  module _ (sys : System) where
    abbrev pub clear_name : String → Vfs W L → Vfs W L
    clear_name name v = clear_shared (get_memory_write_ahead_file (normalized sys) name v) v

    abbrev pub delete_found : String → Option ℕ → Vfs W L → Vfs W L
    delete_found name (some i) v =
        clear_name (get_write_ahead_name_from_db_name name 1)
          (clear_name (get_write_ahead_name_from_db_name name 0) (clear_shared (some i) v))
    delete_found name none v = record v { local_files = delete_key name v.local_files }

    -- jDelete: the bytes of a shared file and of its write-ahead files go, the files stay.
    unfoldable pub j_delete : String → Vfs W L → ℕ × Vfs W L
    unfolding clear_unlocked get_memory_write_ahead_file get_write_ahead_name_from_db_name
    j_delete z_name v =
        let name = normalized sys z_name in
        let u = delete_found name (get_memory_write_ahead_file (normalized sys) name v) v in
        (sqlite_ok, record u { map_path_to_file = delete_key name u.map_path_to_file })

    -- jAccess: the code, and whether there is such a file.
    unfoldable pub j_access : String → Vfs W L → ℕ × Bool
    unfolding get_memory_write_ahead_file
    j_access z_name v =
        let name = normalized sys z_name in
        (
          sqlite_ok,
          is_present (get_memory_write_ahead_file (normalized sys) name v)
              || is_present (find_key name v.local_files),
        )

    abbrev pub close_access : ℕ → Option Handle → Vfs W L → Vfs W L
    close_access i none v = v
    close_access i (some h) v =
        let out = close_handle_of sys h v in
        change_file i (λ f. record f { access_handle = some (out.0) }) out.1

    -- The handles that are left of those to close, closed.
    abbrev pub close_all : List Handle → Vfs W L → List Handle × Vfs W L
    close_all [] v = ([], v)
    close_all (h ∷ hs) v =
        let out = close_handle_of sys h v in
        let rest = close_all hs out.1 in (out.0 ∷ rest.0, rest.1)

    abbrev pub close_write_aheads : ℕ → List Handle → Vfs W L → Vfs W L
    close_write_aheads i hs v =
        let out = close_all hs v in change_file i (λ f. record f { wa_handles = out.0 }) out.1

    module _ (p : Platform W L) where
      -- The last steps for a database: the handles, the locks and the path, if it is still this file's.
      abbrev pub close_database : ℕ → OpenFile W L → Vfs W L → Vfs W L
      close_database i f v =
          let u = close_write_aheads i f.wa_handles (close_access i f.access_handle v) in
          let t =
            change_file i
              (λ g. record g {
                read_lock = change p.close_lock g.read_lock;
                write_lock = change p.close_lock g.write_lock;
                opened = false;
              })
              u in
          record t {
            map_path_to_file =
                if is_same (find_key f.z_name t.map_path_to_file) i
                then delete_key f.z_name t.map_path_to_file
                else t.map_path_to_file;
          }

      abbrev pub close_ahead : Session W L → Result VfsError (Unit {0}) × Session W L
      close_ahead s = on_write_ahead tt p.close_write_ahead s.file.write_ahead s

      abbrev pub closed_ahead :
          ℕ
          → Result VfsError (Unit {0}) × Session W L
          → Vfs W L
          → Result VfsError (Unit {0}) × Vfs W L
      closed_ahead i out v = (out.0, put_session i out.1 v)

      abbrev pub close_main : ℕ → OpenFile W L → Vfs W L → Result VfsError (Unit {0}) × Vfs W L
      close_main i f v =
          after (closed_ahead i (close_ahead (release_attached p (session_of f v))) v)
            (λ _ u. (ok tt, close_database i f u))

      abbrev pub close_temporary : ℕ → OpenFile W L → Vfs W L → Vfs W L
      close_temporary i f v =
          let u = close_access i f.access_handle v in
          if has_flag f.flags sqlite_open_deleteonclose
          then record u {
            local_files = delete_key f.z_name u.local_files;
            map_path_to_file = delete_key f.z_name u.map_path_to_file;
          }
          else u

      abbrev pub finish_close : ℕ → Result VfsError (Unit {0}) × Vfs W L → ℕ × Vfs W L
      finish_close file_id (err e, v) = (sqlite_ioerr_close, record v { last_error = some e })
      finish_close file_id (ok _, v) =
          (sqlite_ok, record v { map_id_to_file = delete_id file_id v.map_id_to_file })

      abbrev pub close_found : ℕ → Option ℕ → Option (OpenFile W L) → Vfs W L → ℕ × Vfs W L
      close_found file_id none file v = (sqlite_ok, v)
      close_found file_id (some i) none v = (sqlite_ok, v)
      close_found file_id (some i) (some f) v =
          finish_close file_id
            (if is_main_db f then close_main i f v else (ok tt, close_temporary i f v))

      unfoldable pub j_close : ℕ → Vfs W L → ℕ × Vfs W L
      unfolding close_handle_of release_attached_database_lock
      j_close file_id v =
          let i = find_id file_id v.map_id_to_file in close_found file_id i (file_at i v) v
