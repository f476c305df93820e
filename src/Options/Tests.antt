-- ===== src/Options/Tests.antt =====
-- Options, and the theorems on them.
use memory_write_ahead_vfs.Base.{refl, arith, none, some, false, ◌*◌, pos}
use memory_write_ahead_vfs.Options.{
  integer, RuntimeOptions, ResolvedRuntimeOptions, mib, resolve_memory_write_ahead_runtime_options,
  assert_positive_capacity_bytes, assert_positive_integer, check_order,
}
use memory_write_ahead_vfs.Options.Laws.{InBounds, resolve-InBounds}

-- Every option left out but one.
abbrev eight_mib : RuntimeOptions
eight_mib = record {
  allow_fixed_capacity_fallback = none;
  initial_database_capacity_bytes = some (integer (pos (8 * mib)));
  max_database_capacity_bytes = none;
  initial_write_ahead_capacity_bytes = none;
  max_write_ahead_capacity_bytes = none;
  file_lock_stale_ms = none;
}

abbrev defaults : ResolvedRuntimeOptions
defaults = record {
  allow_fixed_capacity_fallback = false;
  initial_database_capacity_bytes = 8 * mib;
  max_database_capacity_bytes = 1024 * mib;
  initial_write_ahead_capacity_bytes = 8 * mib;
  max_write_ahead_capacity_bytes = 512 * mib;
  file_lock_stale_ms = 30000;
}

resolve-InBounds_example : InBounds defaults
unfolding resolve_memory_write_ahead_runtime_options assert_positive_capacity_bytes
    assert_positive_integer check_order
resolve-InBounds_example = resolve-InBounds eight_mib {r = defaults} refl

defaults-InBounds : InBounds defaults
defaults-InBounds = record {
  database_positive = omega arith;
  database_order = omega arith;
  database_int32 = omega arith;
  write_ahead_positive = omega arith;
  write_ahead_order = omega arith;
  write_ahead_int32 = omega arith;
  stale_positive = omega arith;
}
