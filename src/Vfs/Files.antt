-- ===== src/Vfs/Files.antt =====
-- The files of the VFS (src/MemoryWriteAheadVFS.ts): mapIdToFile, mapPathToFile and #localFiles, whose
-- values are shared objects. An object is an index into the list of all of its kind, so that two maps, or
-- a map and a handle, can refer to one. The runtime's files are those of the lease context.
use Prim.Native.String.{String}
use memory_write_ahead_vfs.Base.{
  ℕ, Option, none, some, List, [], ◌∷◌, ◌++◌, map, ◌==◌, get_elem?, set, if◌then◌else◌,
}
use memory_write_ahead_vfs.SharedFile.{SharedFile}
use memory_write_ahead_vfs.Lease.{Context}
use memory_write_ahead_vfs.LocalFile.{LocalFile}
use memory_write_ahead_vfs.Registry.Keys.{Table, find_key}
use memory_write_ahead_vfs.Vfs.{VfsError, OpenFile, Operation, Session}

pub record Vfs (W L : Type 0) : Type 0 where
  pub db_filename : String
  pub open_files : List (OpenFile W L)
  pub map_id_to_file : List (ℕ × ℕ)
  pub map_path_to_file : Table ℕ
  pub local_store : List LocalFile
  pub local_files : Table ℕ
  -- `sharedRuntime.files`, as indices of `context.runtime.files`
  pub shared_files : Table ℕ
  pub context : Context
  -- `retryOps` and `pendingOps`, each with its file
  pub queue : List (ℕ × Operation)
  pub last_error : Option VfsError

module _ {Value : Type 0} where
  abbrev pub find_id : ℕ → List (ℕ × Value) → Option Value
  find_id wanted [] = none
  find_id wanted (entry ∷ table) =
      if entry.0 == wanted then some (entry.1) else find_id wanted table

  abbrev pub delete_id : ℕ → List (ℕ × Value) → List (ℕ × Value)
  delete_id wanted [] = []
  delete_id wanted (entry ∷ table) =
      let rest = delete_id wanted table in if entry.0 == wanted then rest else entry ∷ rest

  abbrev pub store_id : ℕ → Value → List (ℕ × Value) → List (ℕ × Value)
  store_id wanted value table = (wanted, value) ∷ delete_id wanted table

  abbrev pub or_else : Option Value → Option Value → Option Value
  or_else none b = b
  or_else (some a) b = some a

module _ {W L : Type 0} where
  abbrev pub shared_store : Vfs W L → List SharedFile
  shared_store v = v.context.runtime.files

  abbrev pub with_shared_store : List SharedFile → Vfs W L → Vfs W L
  with_shared_store files v = record v {
    context = record (v.context) { runtime = record (v.context.runtime) { files = files } };
  }

  -- getMemoryWriteAheadFile, by the normalized path and then by the path as it is.
  unfoldable pub get_memory_write_ahead_file : (String → String) → String → Vfs W L → Option ℕ
  get_memory_write_ahead_file normalize pathname v =
      or_else (find_key (normalize pathname) v.shared_files) (find_key pathname v.shared_files)

  abbrev pub file_at : Option ℕ → Vfs W L → Option (OpenFile W L)
  file_at none v = none
  file_at (some i) v = get_elem? v.open_files i

  abbrev pub session_of : OpenFile W L → Vfs W L → Session W L
  session_of file v = record {
    file = file;
    files = shared_store v;
    local_files = v.local_store;
    queue = [];
    last_error = v.last_error;
  }

  abbrev pub put_session : ℕ → Session W L → Vfs W L → Vfs W L
  put_session i s v = with_shared_store s.files (record v {
    open_files = set v.open_files i s.file;
    local_store = s.local_files;
    queue = v.queue ++ map (λ op. (i, op)) s.queue;
    last_error = s.last_error;
  })

  abbrev pub put_outcome : {A : Type 0} → ℕ → A × Session W L → Vfs W L → A × Vfs W L
  put_outcome i out v = (out.0, put_session i out.1 v)

  abbrev pub on_found :
      {A : Type 0}
      → A
      → (Session W L → A × Session W L)
      → Option ℕ
      → Option (OpenFile W L)
      → Vfs W L
      → A × Vfs W L
  on_found missing handler none file v = (missing, v)
  on_found missing handler (some i) none v = (missing, v)
  on_found missing handler (some i) (some file) v = put_outcome i (handler (session_of file v)) v

  -- A handler of a file id: without such a file it answers `missing` at once.
  unfoldable pub on_file :
      {A : Type 0} → A → (Session W L → A × Session W L) → ℕ → Vfs W L → A × Vfs W L
  on_file missing handler file_id v =
      let i = find_id file_id v.map_id_to_file in on_found missing handler i (file_at i v) v
