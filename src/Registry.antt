-- ===== src/Registry.antt =====
-- The registry of shared runtimes (src/memoryWriteAheadSharedRuntime.ts):
-- createMemoryWriteAheadSharedRuntime, ensureMemoryWriteAheadDatabaseFiles,
-- registerMemoryWriteAheadRuntime and registerMemoryWriteAheadSharedFiles.
-- A runtime here is an object of the registry; its lease slots are those of Lease.
pub mod Keys
pub mod Creation
pub mod Reset
pub mod Diagnostics
mod Tests
use Prim.Native.String.{String, ◌++◌}
use memory_write_ahead_vfs.Base.{
  ℕ, Bool, true, false, ◌&&◌, not, Option, none, some, List, [], ◌∷◌, ℤ, pos, replicate, ◌==◌,
  if◌then◌else◌, Result, ok, err, ◌>>=◌,
}
use memory_write_ahead_vfs.Options.{
  RuntimeOptions, ResolvedRuntimeOptions, OptionError, resolve_memory_write_ahead_runtime_options,
}
use memory_write_ahead_vfs.SharedFile.{SharedFile}
use memory_write_ahead_vfs.SharedFile.Create.{
  Host, SupportError, create_shared_file, create_growable_shared_array_buffer_support_error,
}
use memory_write_ahead_vfs.Lease.{LeaseSlot, no_lease, memory_write_ahead_owner_lease_slot_count}
use memory_write_ahead_vfs.Registry.Keys.{Table, same_text, find_key, store_key}

-- The slots of `registryMeta`.
pub record RegistryMeta : Type 0 where
  pub open_handle_count : ℤ
  pub recovered_abandoned_handle_count : ℤ
  pub slots : List LeaseSlot

-- MemoryWriteAheadSharedRuntime
pub record SharedRuntime : Type 0 where
  pub capacities : ResolvedRuntimeOptions
  pub db_filename : String
  pub files : Table SharedFile
  pub registry_meta : RegistryMeta

-- MemoryWriteAheadDatabaseFiles
pub record DatabaseFiles : Type 0 where
  pub database : SharedFile
  pub write_ahead_0 : SharedFile
  pub write_ahead_1 : SharedFile

pub data RuntimeError : Type 0 where
  bad_options : OptionError → RuntimeError
  unsupported : SupportError → RuntimeError
  different_options not_registered foreign_file : RuntimeError

abbrev pub Registry : Type 0
Registry = Table SharedRuntime

abbrev pub new_registry_meta : RegistryMeta
new_registry_meta = record {
  open_handle_count = pos 0;
  recovered_abandoned_handle_count = pos 0;
  slots = replicate memory_write_ahead_owner_lease_slot_count no_lease;
}

abbrev same_bool : Bool → Bool → Bool
same_bool true b = b
same_bool false b = not b

-- Equality of formatRuntimeOptions: the texts have the fields in one order.
unfoldable pub same_options : ResolvedRuntimeOptions → ResolvedRuntimeOptions → Bool
same_options a b =
    same_bool a.allow_fixed_capacity_fallback b.allow_fixed_capacity_fallback
    && ((a.initial_database_capacity_bytes == b.initial_database_capacity_bytes)
        && ((a.max_database_capacity_bytes == b.max_database_capacity_bytes)
            && ((a.initial_write_ahead_capacity_bytes == b.initial_write_ahead_capacity_bytes)
                && ((a.max_write_ahead_capacity_bytes == b.max_write_ahead_capacity_bytes)
                    && (a.file_lock_stale_ms == b.file_lock_stale_ms)))))

abbrev pub support : {A : Type 0} → Result SupportError A → Result RuntimeError A
support (err e) = err (unsupported e)
support (ok a) = ok a

-- The three files of a database `name`; createSharedFile is given the runtime's name.
unfoldable pub create_database_files :
    Host → ResolvedRuntimeOptions → String → Result SupportError DatabaseFiles
unfolding create_shared_file
create_database_files host c name = do
  database ←
      create_shared_file host name name c.initial_database_capacity_bytes
        c.max_database_capacity_bytes c.allow_fixed_capacity_fallback
  first ←
      create_shared_file host name (name ++ "-wa0") c.initial_write_ahead_capacity_bytes
        c.max_write_ahead_capacity_bytes c.allow_fixed_capacity_fallback
  second ←
      create_shared_file host name (name ++ "-wa1") c.initial_write_ahead_capacity_bytes
        c.max_write_ahead_capacity_bytes c.allow_fixed_capacity_fallback
  ok (record { database = database; write_ahead_0 = first; write_ahead_1 = second })

abbrev pub new_runtime : ResolvedRuntimeOptions → String → DatabaseFiles → SharedRuntime
new_runtime c name files = record {
  capacities = c;
  db_filename = name;
  files =
      (name, files.database)
      ∷ (name ++ "-wa0", files.write_ahead_0)
      ∷ (name ++ "-wa1", files.write_ahead_1)
      ∷ [];
  registry_meta = new_registry_meta;
}

-- A new runtime goes into the registry once its files are made.
abbrev pub register_new :
    ResolvedRuntimeOptions
    → String
    → Registry
    → Result SupportError DatabaseFiles
    → Result RuntimeError SharedRuntime × Registry
register_new c name registry (err e) = (err (unsupported e), registry)
register_new c name registry (ok files) =
    (ok (new_runtime c name files), store_key name (new_runtime c name files) registry)

-- What the registry has under the name.
unfoldable pub reuse_or_create :
    Host
    → ResolvedRuntimeOptions
    → String
    → Registry
    → Option SharedRuntime
    → Result RuntimeError SharedRuntime × Registry
unfolding create_database_files same_options
reuse_or_create host c name registry (some existing) =
    if same_options existing.capacities c
    then (ok existing, registry)
    else (err different_options, registry)
reuse_or_create host c name registry none =
    register_new c name registry (create_database_files host c name)

-- `crossOriginIsolated === false`, and no fallback
abbrev pub must_isolate : Host → ResolvedRuntimeOptions → Bool
must_isolate host c =
    not c.allow_fixed_capacity_fallback
    && elim host.cross_origin_isolated [ some false ↦ true | _ ↦ false ]

unfoldable pub create_resolved :
    Host
    → String
    → Registry
    → Result OptionError ResolvedRuntimeOptions
    → Result RuntimeError SharedRuntime × Registry
unfolding reuse_or_create create_growable_shared_array_buffer_support_error
create_resolved host name registry (err e) = (err (bad_options e), registry)
create_resolved host name registry (ok c) =
    if must_isolate host c
    then (err (unsupported (create_growable_shared_array_buffer_support_error host)), registry)
    else reuse_or_create host c name registry (find_key name registry)

unfoldable pub create_memory_write_ahead_shared_runtime :
    Host → String → RuntimeOptions → Registry → Result RuntimeError SharedRuntime × Registry
unfolding create_resolved resolve_memory_write_ahead_runtime_options
create_memory_write_ahead_shared_runtime host db_filename options registry =
    create_resolved host (host.url_pathname db_filename) registry
      (resolve_memory_write_ahead_runtime_options options)

abbrev pub keep_file :
    String
    → SharedRuntime
    → Result SupportError SharedFile
    → Result RuntimeError SharedFile × SharedRuntime
keep_file path r (err e) = (err (unsupported e), r)
keep_file path r (ok f) = (ok f, record r { files = store_key path f r.files })

unfoldable pub ensure_at :
    Host
    → String
    → ℕ
    → ℕ
    → SharedRuntime
    → Option SharedFile
    → Result RuntimeError SharedFile × SharedRuntime
unfolding create_shared_file
ensure_at host path initial_bytes max_bytes r (some f) = (ok f, r)
ensure_at host path initial_bytes max_bytes r none = keep_file path r (
    create_shared_file host r.db_filename path initial_bytes max_bytes
      r.capacities.allow_fixed_capacity_fallback)

unfoldable pub ensure_shared_file :
    Host → String → ℕ → ℕ → SharedRuntime → Result RuntimeError SharedFile × SharedRuntime
unfolding ensure_at
ensure_shared_file host pathname initial_bytes max_bytes r =
    ensure_at host (host.url_pathname pathname) initial_bytes max_bytes r
      (find_key (host.url_pathname pathname) r.files)

unfoldable pub register_memory_write_ahead_runtime : Host → SharedRuntime → Registry → Registry
register_memory_write_ahead_runtime host r registry =
    store_key (host.url_pathname r.db_filename) r registry

-- The `forEach` of registerMemoryWriteAheadSharedFiles: the files before a foreign one stay registered.
unfoldable pub register_files :
    Host → String → List SharedFile → SharedRuntime → Result RuntimeError (Unit {0}) × SharedRuntime
register_files host name [] r = (ok tt, r)
register_files host name (f ∷ fs) r =
    let rest =
      register_files host name fs
        (record r { files = store_key (host.url_pathname f.pathname) f r.files }) in
    if same_text (host.url_pathname f.db_filename) name then rest else (err foreign_file, r)

-- The runtime is one object with the one in the registry: what is registered shows there.
abbrev pub registered_at :
    String
    → Registry
    → Result RuntimeError (Unit {0}) × SharedRuntime
    → Result RuntimeError SharedRuntime × Registry
registered_at name registry (err e, r) = (err e, store_key name r registry)
registered_at name registry (ok _, r) = (ok r, store_key name r registry)

unfoldable pub register_into :
    Host
    → String
    → List SharedFile
    → Registry
    → Option SharedRuntime
    → Result RuntimeError SharedRuntime × Registry
unfolding register_files
register_into host name files registry none = (err not_registered, registry)
register_into host name files registry (some r) =
    registered_at name registry (register_files host name files r)

unfoldable pub register_memory_write_ahead_shared_files :
    Host → String → List SharedFile → Registry → Result RuntimeError SharedRuntime × Registry
unfolding register_into
register_memory_write_ahead_shared_files host runtime_db_filename files registry =
    register_into host (host.url_pathname runtime_db_filename) files registry
      (find_key (host.url_pathname runtime_db_filename) registry)

abbrev pub ensure_second :
    SharedFile
    → SharedFile
    → Result RuntimeError SharedFile × SharedRuntime
    → Result RuntimeError DatabaseFiles × SharedRuntime
ensure_second database first (err e, r) = (err e, r)
ensure_second database first (ok second, r) =
    (ok (record { database = database; write_ahead_0 = first; write_ahead_1 = second }), r)

unfoldable pub ensure_first :
    Host
    → String
    → SharedFile
    → Result RuntimeError SharedFile × SharedRuntime
    → Result RuntimeError DatabaseFiles × SharedRuntime
unfolding ensure_shared_file
ensure_first host name database (err e, r) = (err e, r)
ensure_first host name database (ok first, r) = ensure_second database first (
    ensure_shared_file host (name ++ "-wa1") r.capacities.initial_write_ahead_capacity_bytes
      r.capacities.max_write_ahead_capacity_bytes r)

unfoldable pub ensure_database :
    Host
    → String
    → Result RuntimeError SharedFile × SharedRuntime
    → Result RuntimeError DatabaseFiles × SharedRuntime
unfolding ensure_shared_file ensure_first
ensure_database host name (err e, r) = (err e, r)
ensure_database host name (ok database, r) = ensure_first host name database (
    ensure_shared_file host (name ++ "-wa0") r.capacities.initial_write_ahead_capacity_bytes
      r.capacities.max_write_ahead_capacity_bytes r)

-- The files of another database of the runtime, each made where it is missing.
unfoldable pub ensure_memory_write_ahead_database_files :
    Host → String → SharedRuntime → Result RuntimeError DatabaseFiles × SharedRuntime
unfolding ensure_shared_file ensure_database
ensure_memory_write_ahead_database_files host db_filename r =
    let name = host.url_pathname db_filename in
    ensure_database host name (
      ensure_shared_file host name r.capacities.initial_database_capacity_bytes
        r.capacities.max_database_capacity_bytes r)
