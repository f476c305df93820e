-- ===== src/Registry/Tests.antt =====
-- Registries, and the theorems on them.
use memory_write_ahead_vfs.Base.{
  zero, suc, replicate, arith, ℕ, ◌≡◌, refl, inl, true, false, none, some, [], ◌∷◌, ok, ◌*◌, ◌≤◌,
  ◌≤ℤ◌, pos,
}
use memory_write_ahead_vfs.Options.{
  RuntimeOptions, ResolvedRuntimeOptions, mib, resolve_memory_write_ahead_runtime_options,
  assert_positive_capacity_bytes, assert_positive_integer, check_order,
}
use memory_write_ahead_vfs.SharedFile.Create.{Host, makes_growable}
use memory_write_ahead_vfs.Registry.{
  SharedRuntime, new_registry_meta, create_memory_write_ahead_shared_runtime,
}
use memory_write_ahead_vfs.SharedFile.Tests.{small_file, small_file-IsWellFormed}
use memory_write_ahead_vfs.Lease.{no_lease}
use memory_write_ahead_vfs.Lease.Counts.{AreSettled}
use memory_write_ahead_vfs.Registry.Reset.{Global, ResetsShared, reset_shared-Resets}
use memory_write_ahead_vfs.Registry.Diagnostics.{file_diagnostics, file_diagnostics-InOrder}
use memory_write_ahead_vfs.Registry.Keys.{find_key}
use memory_write_ahead_vfs.Registry.Creation.{IsNew, create-IsNew}

abbrev browser : Host
browser = record {
  support = makes_growable;
  cross_origin_isolated = some true;
  url_pathname = λ s. s;
}

abbrev no_options : RuntimeOptions
no_options = record {
  allow_fixed_capacity_fallback = none;
  initial_database_capacity_bytes = none;
  max_database_capacity_bytes = none;
  initial_write_ahead_capacity_bytes = none;
  max_write_ahead_capacity_bytes = none;
  file_lock_stale_ms = none;
}

abbrev defaults : ResolvedRuntimeOptions
defaults = record {
  allow_fixed_capacity_fallback = false;
  initial_database_capacity_bytes = 16 * mib;
  max_database_capacity_bytes = 1024 * mib;
  initial_write_ahead_capacity_bytes = 8 * mib;
  max_write_ahead_capacity_bytes = 512 * mib;
  file_lock_stale_ms = 30000;
}

-- A runtime whose files do not matter.
abbrev bare : SharedRuntime
bare = record {
  capacities = defaults;
  db_filename = "/a";
  files = [];
  registry_meta = new_registry_meta;
}

create-IsNew_example :
    let out =
      create_memory_write_ahead_shared_runtime browser "/b" no_options (("/a", bare) ∷ []) in
    (r : SharedRuntime) × (out.0 ≡ ok r)
    × (find_key "/b" out.1 ≡ some r)
    × IsNew browser defaults "/b" r
unfolding resolve_memory_write_ahead_runtime_options assert_positive_capacity_bytes
    assert_positive_integer check_order
create-IsNew_example =
    create-IsNew browser "/b" no_options defaults (("/a", bare) ∷ []) refl (inl refl) refl refl

-- The runtime of "/b", without open handles, is reset.
abbrev two_runtimes : Global
two_runtimes = record {
  leases = [];
  registry = ("/a", bare) ∷ ("/b", record bare { db_filename = "/b" }) ∷ [];
}

replicate-AreSettled : (n : ℕ) → AreSettled (replicate n no_lease)
replicate-AreSettled zero = tt
replicate-AreSettled (suc n) = ((refl, λ e. refl), replicate-AreSettled n)

reset_shared-Resets_example :
    ResetsShared browser 100
      (λ n heartbeat. heartbeat)
      "/b"
      "/a"
      (record bare { db_filename = "/b" })
      two_runtimes
reset_shared-Resets_example =
    reset_shared-Resets browser 100 (λ n heartbeat. heartbeat) "/b" "/a"
      (record bare { db_filename = "/b" }) two_runtimes (refl, replicate-AreSettled 32, omega arith)
      refl refl

file_diagnostics-InOrder_example :
    let d = file_diagnostics 100 small_file in
    (d.logical_size_bytes ≤ d.current_capacity_bytes)
    × (d.current_capacity_bytes ≤ d.allocated_capacity_bytes)
    × (d.segment_count ≤ d.total_segment_count)
    × (pos d.logical_size_bytes ≤ℤ d.peak_logical_size_bytes)
    × (pos d.capacity_bytes ≤ℤ d.peak_capacity_bytes)
    × (pos d.allocated_capacity_bytes ≤ℤ d.peak_allocated_capacity_bytes)
file_diagnostics-InOrder_example = file_diagnostics-InOrder 100 small_file-IsWellFormed
