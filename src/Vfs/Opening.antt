-- ===== src/Vfs/Opening.antt =====
-- Opening a file (src/MemoryWriteAheadVFS.ts): jOpen and #openTemporaryHandle.
use Prim.Native.String.{String, ◌++◌}
use memory_write_ahead_vfs.Base.{
  ℕ, Bool, true, false, ◌&&◌, ◌||◌, not, Option, none, some, [], ◌∷◌, ◌++◌ as append, length, ℤ,
  pos, negsuc, eqb_ℤ, ◌==◌, Result, ok, err, get_elem?, if◌then◌else◌,
}
use memory_write_ahead_vfs.Lease.Operations.{get_memory_write_ahead_runtime_owner_id}
use memory_write_ahead_vfs.Registry.Keys.{delete_key, same_text, find_key, store_key}
use memory_write_ahead_vfs.Vfs.{
  no_timeout, timeout_ms, VfsError, file_missing, already_open, runtime_owner_missing,
  wal_is_internal, Platform, normal_mode, lazy_readwrite, RetryState, no_result, done, rejected,
  Handle, local_handle, OpenFile, retry_open, after, has_flag, sqlite_ok, sqlite_busy,
  sqlite_cantopen, sqlite_lock_none, sqlite_open_main_db, sqlite_open_wal,
  sqlite_open_super_journal, sqlite_open_create,
}
use memory_write_ahead_vfs.Vfs.Files.{
  Vfs, find_id, delete_id, store_id, get_memory_write_ahead_file, file_at,
}
use memory_write_ahead_vfs.Vfs.OpenRetry.{
  System, normalized, or_new, or_id, new_shared_handle, change_file, retry_left,
}

abbrev pub is_same : Option ℕ → ℕ → Bool
is_same none i = false
is_same (some j) i = j == i

abbrev pub is_null : RetryState → Bool
is_null no_result = true
is_null done = false
is_null (rejected e) = false

module _ {W L : Type 0} where
  abbrev pub new_open_file : String → ℕ → OpenFile W L
  new_open_file name flags = record {
    z_name = name;
    flags = flags;
    access_handle = none;
    wa_handles = [];
    write_ahead = none;
    read_lock = none;
    write_lock = none;
    retry_result = no_result;
    lock_state = none;
    locking_mode = normal_mode;
    use_lazy_lock = none;
    timeout = no_timeout;
    write_hint = none;
    page_size = none;
    overwrite = false;
    opened = false;
    synchronous = none;
    shared_file = none;
    attached_transaction_lock_held = false;
    attached_transaction_lock_owner_id = pos 0;
    attached_transaction_lock_runtime_owner_id = pos 0;
  }

  abbrev pub open_local : String → Bool → Option ℕ → Vfs W L → Result VfsError Handle × Vfs W L
  open_local pathname create (some i) v = (ok (local_handle i), v)
  open_local pathname create none v =
      if create
      then (
        ok (local_handle (length v.local_store)),
        record v {
          local_store = append v.local_store (record { contents = []; size = 0 } ∷ []);
          local_files = store_key pathname (length v.local_store) v.local_files;
        },
      )
      else (err file_missing, v)

  unfoldable pub open_temporary_handle : String → Bool → Vfs W L → Result VfsError Handle × Vfs W L
  open_temporary_handle pathname create v =
      open_local pathname create (find_key pathname v.local_files) v

  -- `mapPathToFile.get(name) ?? {…}`, and the set after it: the index of the file.
  abbrev pub claim_path : String → ℕ → Option ℕ → Vfs W L → ℕ × Vfs W L
  claim_path name flags (some i) v = (i, v)
  claim_path name flags none v = (
    length v.open_files,
    record v {
      open_files = append v.open_files (new_open_file name flags ∷ []);
      map_path_to_file = store_key name (length v.open_files) v.map_path_to_file;
    },
  )

  -- The catch block of jOpen.
  abbrev pub fail_open : String → ℕ → Bool → VfsError → Vfs W L → ℕ × Vfs W L
  fail_open name file_id delete_path e v = (
    sqlite_cantopen,
    record v {
      last_error = some e;
      map_id_to_file = delete_id file_id v.map_id_to_file;
      map_path_to_file =
          if delete_path then delete_key name v.map_path_to_file else v.map_path_to_file;
    },
  )

  abbrev pub catch_open : String → ℕ → Result VfsError ℕ × Vfs W L → ℕ × Vfs W L
  catch_open name file_id (err e, v) = fail_open name file_id true e v
  catch_open name file_id (ok code, v) = (code, v)

  -- The last lines; the flags that jOpen puts out are those it was given.
  abbrev pub admit : ℕ → ℕ → Vfs W L → ℕ × Vfs W L
  admit file_id i v = (sqlite_ok, record v { map_id_to_file = store_id file_id i v.map_id_to_file })

  -- Another connection to the primary database, which is open or being opened.
  abbrev pub is_taken : ℕ → Option ℕ → Option (OpenFile W L) → Vfs W L → Bool
  is_taken file_id none file v = false
  is_taken file_id (some i) none v = false
  is_taken file_id (some i) (some f) v =
      (f.opened || is_null f.retry_result) && not (is_same (find_id file_id v.map_id_to_file) i)

  module _ (p : Platform W L) (sys : System) where
    -- What jOpen sets of a database.
    abbrev pub as_database : String → OpenFile W L → OpenFile W L
    as_database name f = record f {
      lock_state = some sqlite_lock_none;
      locking_mode = normal_mode;
      read_lock = or_new f.read_lock (p.new_lock (name ++ "#read"));
      write_lock = or_new f.write_lock (p.new_lock (name ++ "#write"));
      use_lazy_lock = some lazy_readwrite;
      timeout = timeout_ms (negsuc 0);
      synchronous = some 1;
      write_hint = none;
      page_size = none;
      overwrite = false;
    }

    abbrev pub open_by_result :
        String → String → ℕ → ℕ → RetryState → OpenFile W L → Vfs W L → ℕ × Vfs W L
    open_by_result name name' file_id i no_result f v =
        (sqlite_busy, record v { queue = append v.queue ((i, retry_open) ∷ []) })
    open_by_result name name' file_id i (rejected e) f v =
        fail_open name' file_id (not f.opened) e (change_file i (retry_left no_result) v)
    open_by_result name name' file_id i done f v = admit file_id i (
        change_file i (λ g. record (as_database name g) { opened = true; retry_result = no_result })
          v)

    abbrev pub open_claimed :
        String → String → ℕ → ℕ × Vfs W L → Option (OpenFile W L) → ℕ × Vfs W L
    open_claimed name name' file_id out none = out
    open_claimed name name' file_id (i, v) (some f) =
        open_by_result name name' file_id i f.retry_result f v

    unfoldable pub open_primary : String → String → ℕ → ℕ → Vfs W L → ℕ × Vfs W L
    open_primary name name' file_id flags v =
        let existing = find_key name v.map_path_to_file in
        if is_taken file_id existing (file_at existing v) v
        then fail_open name' file_id false already_open v
        else let claimed = claim_path name flags existing v in
          open_claimed name name' file_id claimed (get_elem? claimed.1.open_files claimed.0)

    abbrev pub found_attached : ℕ → Option ℕ → Vfs W L → Result VfsError (Unit {0}) × Vfs W L
    found_attached i none v = (err file_missing, v)
    found_attached i (some shared) v =
        after
          (new_shared_handle sys shared
            (change_file i (λ f. record f { shared_file = some shared }) v))
          (λ h u. (
            ok tt,
            change_file i (λ f. record f { access_handle = some h; retry_result = no_result }) u,
          ))

    abbrev pub attach_handle :
        String → ℕ → Option Handle → Vfs W L → Result VfsError (Unit {0}) × Vfs W L
    attach_handle name i (some h) v = (ok tt, v)
    attach_handle name i none v =
        found_attached i (get_memory_write_ahead_file (normalized sys) name v) v

    abbrev pub own_by : ℕ → Option ℤ → Vfs W L → Result VfsError (Unit {0}) × Vfs W L
    own_by i none v = (err runtime_owner_missing, v)
    own_by i (some owner) v = if eqb_ℤ owner (pos 0) then (err runtime_owner_missing, v) else (
      ok tt,
      change_file i
          (λ f. record f {
            attached_transaction_lock_runtime_owner_id =
                or_id f.attached_transaction_lock_runtime_owner_id owner;
          })
          v,
    )

    unfoldable pub open_attached :
        String → ℕ → Option Handle → Vfs W L → Result VfsError (Unit {0}) × Vfs W L
    unfolding new_shared_handle get_memory_write_ahead_file get_memory_write_ahead_runtime_owner_id
    open_attached name i handle v = after (attach_handle name i handle v) (λ _ u.
        let u' =
          change_file i
            (λ f. record (as_database name f) {
              attached_transaction_lock_owner_id =
                  or_id f.attached_transaction_lock_owner_id sys.lock_owner_id;
            })
            u in
        own_by i (get_memory_write_ahead_runtime_owner_id u'.context) u')

    abbrev pub open_temporary : String → ℕ → Bool → Vfs W L → Result VfsError (Unit {0}) × Vfs W L
    open_temporary name i create v =
        after (open_temporary_handle name create v)
          (λ h u. (ok tt, change_file i (λ f. record f { access_handle = some h }) u))

    abbrev pub open_other :
        String → ℕ → ℕ → Option Handle → Vfs W L → Result VfsError (Unit {0}) × Vfs W L
    open_other name flags i (some h) v =
        if has_flag flags sqlite_open_super_journal
        then open_temporary name i true v
        else (ok tt, v)
    open_other name flags i none v =
        if has_flag flags sqlite_open_super_journal
        then open_temporary name i true v
        else open_temporary name i (has_flag flags sqlite_open_create) v

    abbrev pub open_kind :
        String → ℕ → ℕ → Option Handle → Vfs W L → Result VfsError (Unit {0}) × Vfs W L
    open_kind name flags i handle v =
        if has_flag flags sqlite_open_main_db
        then open_attached name i handle v
        else if has_flag flags sqlite_open_wal
        then (err wal_is_internal, v)
        else open_other name flags i handle v

    abbrev pub handle_of : Option (OpenFile W L) → Option Handle
    handle_of none = none
    handle_of (some f) = f.access_handle

    unfoldable pub open_file : String → String → ℕ → ℕ → Vfs W L → ℕ × Vfs W L
    unfolding open_attached open_temporary_handle
    open_file name name' file_id flags v =
        let (i, u) = claim_path name flags (find_key name v.map_path_to_file) v in
        catch_open name' file_id (
          after (open_kind name flags i (handle_of (get_elem? u.open_files i)) u)
            (λ _ t. let out = admit file_id i t in (ok (out.0), out.1)))

    unfoldable pub j_open : Option String → ℕ → ℕ → Vfs W L → ℕ × Vfs W L
    unfolding open_primary open_file
    j_open z_name file_id flags v =
        let name = sys.normalize z_name in
        let name' = sys.normalize_again z_name in
        if has_flag flags sqlite_open_main_db && same_text name v.db_filename
        then open_primary name name' file_id flags v
        else open_file name name' file_id flags v
