-- ===== src/Vfs/OneConnection.antt =====
-- One connection to the primary database of a VFS (src/MemoryWriteAheadVFS.ts): jOpen under one file id,
-- and then under another.
use Prim.Native.String.{String}
use memory_write_ahead_vfs.Base.{ℕ, true, ◌||◌, none, some, get_elem?, ◌≡◌, ◌⊎◌}
use memory_write_ahead_vfs.Registry.Keys.{find_key}
use memory_write_ahead_vfs.Vfs.{already_open, Platform, OpenFile, sqlite_cantopen}
use memory_write_ahead_vfs.Vfs.Files.{Vfs, find_id, delete_id}
use memory_write_ahead_vfs.Vfs.OpenRetry.{System}
use memory_write_ahead_vfs.Vfs.Opening.{is_null}

module _ {W L : Type 0} where
  -- The primary database belongs to a connection: it is open, or its first open waits for its retry.
  record IsClaimed (v : Vfs W L) : Type 0 where
    index : ℕ
    file : OpenFile W L
    path : find_key v.db_filename v.map_path_to_file ≡ some index
    found : get_elem? v.open_files index ≡ some file
    taken : (file.opened || is_null file.retry_result) ≡ true

  -- What the refusal leaves of a VFS.
  abbrev pub refused : ℕ → Vfs W L → ℕ × Vfs W L
  refused other t = (
    sqlite_cantopen,
    record t { last_error = some already_open; map_id_to_file = delete_id other t.map_id_to_file },
  )

  module _ (p : Platform W L) (sys : System) where
    -- What the first open leaves: the database claimed, and the other id unused.
    abbrev Claims : ℕ → Vfs W L → Vfs W L → Type 0
    Claims other v t =
        IsClaimed t × (t.db_filename ≡ v.db_filename) × (find_id other t.map_id_to_file ≡ none)

    -- A path of the primary database refers to nothing, or to an open file.
    abbrev pub IsLinked : Vfs W L → Type 0
    IsLinked v =
        (find_key v.db_filename v.map_path_to_file ≡ none)
        ⊎ ((i : ℕ) × (f : OpenFile W L) × (find_key v.db_filename v.map_path_to_file ≡ some i)
            × (get_elem? v.open_files i ≡ some f))
