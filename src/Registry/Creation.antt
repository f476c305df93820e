-- ===== src/Registry/Creation.antt =====
-- What createMemoryWriteAheadSharedRuntime gives (src/memoryWriteAheadSharedRuntime.ts).
use Prim.Native.String.{String, ◌++◌}
use memory_write_ahead_vfs.Base.{
  ℕ, pos, [], ◌∷◌, true, false, none, some, ◌≡◌, ◌≢◌, refl, sym, ap, ok, err, arith, Bool-cases,
  inl, inr, ◌⊎◌,
}
use memory_write_ahead_vfs.Options.{
  RuntimeOptions, ResolvedRuntimeOptions, resolve_memory_write_ahead_runtime_options,
}
use memory_write_ahead_vfs.Options.Laws.{InBounds, resolve-InBounds}
use memory_write_ahead_vfs.SharedFile.{SharedFile}
use memory_write_ahead_vfs.SharedFile.Create.{Host}
use memory_write_ahead_vfs.SharedFile.Invariant.{IsWellFormed, active_count, byte_at}
use memory_write_ahead_vfs.SharedFile.NewFile.{CanCreate, create_shared_file-IsWellFormed}
use memory_write_ahead_vfs.Registry.{
  SharedRuntime, DatabaseFiles, different_options, Registry, same_options, create_database_files,
  new_runtime, reuse_or_create, must_isolate, create_resolved,
  create_memory_write_ahead_shared_runtime,
}
use memory_write_ahead_vfs.Registry.Keys.{find_key, find_key-store_key}

same_options_refl : (c : ResolvedRuntimeOptions) → same_options c c ≡ true
unfolding same_options
same_options_refl c = ground arith

same_options-eq : (a b : ResolvedRuntimeOptions) → same_options a b ≡ true → a ≡ b
unfolding same_options
same_options-eq a b h =
    let e0 : a.allow_fixed_capacity_fallback ≡ b.allow_fixed_capacity_fallback =
      ground (arith, h) in
    let e1 : a.initial_database_capacity_bytes ≡ b.initial_database_capacity_bytes =
      ground (arith, h) in
    let e2 : a.max_database_capacity_bytes ≡ b.max_database_capacity_bytes = ground (arith, h) in
    let e3 : a.initial_write_ahead_capacity_bytes ≡ b.initial_write_ahead_capacity_bytes =
      ground (arith, h) in
    let e4 : a.max_write_ahead_capacity_bytes ≡ b.max_write_ahead_capacity_bytes =
      ground (arith, h) in
    let e5 : a.file_lock_stale_ms ≡ b.file_lock_stale_ms = ground (arith, h) in
    λ i. record {
      allow_fixed_capacity_fallback = e0 i;
      initial_database_capacity_bytes = e1 i;
      max_database_capacity_bytes = e2 i;
      initial_write_ahead_capacity_bytes = e3 i;
      max_write_ahead_capacity_bytes = e4 i;
      file_lock_stale_ms = e5 i;
    }

-- A new file of a database: well formed, empty, with one active segment of bytes that are 0, and of the
-- path, the initial and the maximal capacity.
abbrev pub IsNewFile : String → String → ℕ → ℕ → SharedFile → Type 0
IsNewFile db_filename pathname initial_capacity max_capacity f =
    IsWellFormed f
    × (f.max_capacity_bytes ≡ max_capacity)
    × (f.meta.size ≡ 0)
    × (active_count f ≡ 1)
    × ((i : ℕ) → byte_at f i ≡ 0)
    × (f.segment_capacity_bytes ≡ initial_capacity)
    × (f.pathname ≡ pathname)
    × (f.db_filename ≡ db_filename)

-- A new runtime: the options, the name, no handles, and under their paths the database and the two
-- write-ahead files, each new and of its capacities.
pub record IsNew (host : Host) (c : ResolvedRuntimeOptions) (name : String) (r : SharedRuntime)
    : Type 0 where
  pub capacities : r.capacities ≡ c
  pub named : r.db_filename ≡ name
  pub no_handles : r.registry_meta.open_handle_count ≡ pos 0
  pub database : SharedFile
  pub write_ahead_0 : SharedFile
  pub write_ahead_1 : SharedFile
  pub files :
      r.files
      ≡ (name, database) ∷ (name ++ "-wa0", write_ahead_0) ∷ (name ++ "-wa1", write_ahead_1) ∷ []
  pub new_database :
      IsNewFile
        (host.url_pathname name)
        name
        c.initial_database_capacity_bytes
        c.max_database_capacity_bytes
        database
  pub new_write_ahead_0 :
      IsNewFile
        (host.url_pathname name)
        (name ++ "-wa0")
        c.initial_write_ahead_capacity_bytes
        c.max_write_ahead_capacity_bytes
        write_ahead_0
  pub new_write_ahead_1 :
      IsNewFile
        (host.url_pathname name)
        (name ++ "-wa1")
        c.initial_write_ahead_capacity_bytes
        c.max_write_ahead_capacity_bytes
        write_ahead_1

create_database_files-IsNew :
    (host : Host) (c : ResolvedRuntimeOptions) (name : String)
    → CanCreate host c.allow_fixed_capacity_fallback
    → InBounds c
    → (fs : DatabaseFiles) × (create_database_files host c name ≡ ok fs)
      × IsNew host c name (new_runtime c name fs)
unfolding create_database_files
create_database_files-IsNew host c name can b =
    let (d, made, w, m, s, a, z, cap, path, db) =
      create_shared_file-IsWellFormed host name name c.initial_database_capacity_bytes
        c.max_database_capacity_bytes c.allow_fixed_capacity_fallback can b.database_positive
        (omega (arith, b.database_positive, b.database_order)) b.database_int32 in
    let (e, made', w', m', s', a', z', cap', path', db') =
      create_shared_file-IsWellFormed host name (name ++ "-wa0")
        c.initial_write_ahead_capacity_bytes c.max_write_ahead_capacity_bytes
        c.allow_fixed_capacity_fallback can b.write_ahead_positive
        (omega (arith, b.write_ahead_positive, b.write_ahead_order)) b.write_ahead_int32 in
    let (g, made'', w'', m'', s'', a'', z'', cap'', path'', db'') =
      create_shared_file-IsWellFormed host name (name ++ "-wa1")
        c.initial_write_ahead_capacity_bytes c.max_write_ahead_capacity_bytes
        c.allow_fixed_capacity_fallback can b.write_ahead_positive
        (omega (arith, b.write_ahead_positive, b.write_ahead_order)) b.write_ahead_int32 in
    (
      record { database = d; write_ahead_0 = e; write_ahead_1 = g },
      rw (made, made', made'') refl,
      record {
        capacities = refl;
        named = refl;
        no_handles = refl;
        database = d;
        write_ahead_0 = e;
        write_ahead_1 = g;
        files = refl;
        new_database = (w, m, s, a, z, cap, path, db);
        new_write_ahead_0 = (w', m', s', a', z', cap', path', db');
        new_write_ahead_1 = (w'', m'', s'', a'', z'', cap'', path'', db'');
      },
    )

-- Where files can be created, a runtime for a name that is not registered, with options that resolve, is
-- created, and is what the registry has under the name then: it has the options and the name, no handles,
-- and, under their paths, the database and two write-ahead files, each well formed, empty and of its
-- initial and maximal capacity of the options.
pub create-IsNew :
    (host : Host) (db_filename : String) (options : RuntimeOptions) (c : ResolvedRuntimeOptions)
    (registry : Registry)
    → resolve_memory_write_ahead_runtime_options options ≡ ok c
    → CanCreate host c.allow_fixed_capacity_fallback
    → must_isolate host c ≡ false
    → find_key (host.url_pathname db_filename) registry ≡ none
    → (let out = create_memory_write_ahead_shared_runtime host db_filename options registry in
        (r : SharedRuntime) × (out.0 ≡ ok r)
        × (find_key (host.url_pathname db_filename) out.1 ≡ some r)
        × IsNew host c (host.url_pathname db_filename) r)
unfolding create_memory_write_ahead_shared_runtime create_resolved reuse_or_create
create-IsNew host db_filename options c registry e can iso free =
    let name = host.url_pathname db_filename in
    let (fs, made, new) =
      create_database_files-IsNew host c name can (resolve-InBounds options e) in
    (
      new_runtime c name fs,
      rw (e, iso, free, made) refl,
      rw (e, iso, free, made) (find_key-store_key name (new_runtime c name fs) registry),
      new,
    )

-- A runtime that is registered under the name is given out, and the registry stays as it is, exactly if
-- the options resolve to the runtime's own; other options are refused.
pub create-reuses :
    (host : Host) (db_filename : String) (options : RuntimeOptions) (c : ResolvedRuntimeOptions)
    (registry : Registry) (existing : SharedRuntime)
    → resolve_memory_write_ahead_runtime_options options ≡ ok c
    → must_isolate host c ≡ false
    → find_key (host.url_pathname db_filename) registry ≡ some existing
    → (existing.capacities ≡ c)
        × (create_memory_write_ahead_shared_runtime host db_filename options registry
            ≡ (ok existing, registry))
      ⊎ (existing.capacities ≢ c)
        × (create_memory_write_ahead_shared_runtime host db_filename options registry
            ≡ (err different_options, registry))
unfolding create_memory_write_ahead_shared_runtime create_resolved reuse_or_create
create-reuses host db_filename options c registry existing e iso found =
    elim (Bool-cases (same_options existing.capacities c)) [
      | inl s ↦ inl (same_options-eq existing.capacities c s, rw (e, iso, found, s) refl)
      | inr s ↦ inr (
        (λ q. ground (
          arith,
          s,
          ap (λ x. same_options existing.capacities x) (sym q),
          same_options_refl existing.capacities,
        )),
        rw (e, iso, found, s) refl,
      )
    ]
