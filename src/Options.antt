-- ===== src/Options.antt =====
-- The runtime's options (src/memoryWriteAheadSharedRuntime.ts): assertPositiveInteger,
-- assertPositiveCapacityBytes and resolveMemoryWriteAheadRuntimeOptions.
pub mod Laws
mod Tests
use memory_write_ahead_vfs.Base.{
  ℕ, ◌-◌, ◌*◌, ◌^◌, Bool, true, false, ◌&&◌, Option, none, some, ℤ, pos, negsuc, ltb, leb,
  if◌then◌else◌, Result, ok, err, ◌>>=◌, ◌>>◌,
}
use memory_write_ahead_vfs.Counter.{max_int32_atomic_counter}

-- A JavaScript number: an integer, or one that is none (a fraction, NaN, an infinity).
pub data Number : Type 0 where
  integer : ℤ → Number
  other : Number

abbrev pub mib : ℕ
mib = 1024 * 1024

-- MemoryWriteAheadRuntimeOptions; `none` is an option left out.
pub record RuntimeOptions : Type 0 where
  pub allow_fixed_capacity_fallback : Option Bool
  pub initial_database_capacity_bytes : Option Number
  pub max_database_capacity_bytes : Option Number
  pub initial_write_ahead_capacity_bytes : Option Number
  pub max_write_ahead_capacity_bytes : Option Number
  pub file_lock_stale_ms : Option Number

-- MemoryWriteAheadResolvedRuntimeOptions
pub record ResolvedRuntimeOptions : Type 0 where
  pub allow_fixed_capacity_fallback : Bool
  pub initial_database_capacity_bytes : ℕ
  pub max_database_capacity_bytes : ℕ
  pub initial_write_ahead_capacity_bytes : ℕ
  pub max_write_ahead_capacity_bytes : ℕ
  pub file_lock_stale_ms : ℕ

pub data OptionError : Type 0 where
  not_a_positive_integer exceeds_int32_counter : OptionError
  initial_database_exceeds_max initial_write_ahead_exceeds_max : OptionError

-- Number.isSafeInteger(value) && value > 0
unfoldable pub assert_positive_integer : Number → Result OptionError ℕ
assert_positive_integer other = err not_a_positive_integer
assert_positive_integer (integer (negsuc n)) = err not_a_positive_integer
assert_positive_integer (integer (pos n)) =
    if ltb 0 n && leb n (2 ^ 53 - 1) then ok n else err not_a_positive_integer

unfoldable pub assert_positive_capacity_bytes : Number → Result OptionError ℕ
unfolding assert_positive_integer
assert_positive_capacity_bytes value = do
  capacity_bytes ← assert_positive_integer value
  if ltb max_int32_atomic_counter capacity_bytes
      then err exceeds_int32_counter
      else ok capacity_bytes

abbrev pub or_default : Option Number → ℕ → Number
or_default none d = integer (pos d)
or_default (some n) d = n

abbrev pub or_false : Option Bool → Bool
or_false none = false
or_false (some b) = b

-- The object literal of the resolved options.
abbrev pub assemble : RuntimeOptions → ℕ → ℕ → ℕ → ℕ → ℕ → ResolvedRuntimeOptions
assemble options initial_database max_database initial_write_ahead max_write_ahead stale_ms =
    record {
      allow_fixed_capacity_fallback = or_false options.allow_fixed_capacity_fallback;
      initial_database_capacity_bytes = initial_database;
      max_database_capacity_bytes = max_database;
      initial_write_ahead_capacity_bytes = initial_write_ahead;
      max_write_ahead_capacity_bytes = max_write_ahead;
      file_lock_stale_ms = stale_ms;
    }

-- The two comparisons at the end.
unfoldable pub check_order : ResolvedRuntimeOptions → Result OptionError ResolvedRuntimeOptions
check_order r =
    if ltb r.max_database_capacity_bytes r.initial_database_capacity_bytes
    then err initial_database_exceeds_max
    else (if ltb r.max_write_ahead_capacity_bytes r.initial_write_ahead_capacity_bytes
        then err initial_write_ahead_exceeds_max
        else ok r)

unfoldable pub resolve_memory_write_ahead_runtime_options :
    RuntimeOptions → Result OptionError ResolvedRuntimeOptions
unfolding assert_positive_capacity_bytes check_order
resolve_memory_write_ahead_runtime_options options = do
  initial_database ←
      assert_positive_capacity_bytes (or_default options.initial_database_capacity_bytes (16 * mib))
  max_database ←
      assert_positive_capacity_bytes (or_default options.max_database_capacity_bytes (1024 * mib))
  initial_write_ahead ←
      assert_positive_capacity_bytes
        (or_default options.initial_write_ahead_capacity_bytes (8 * mib))
  max_write_ahead ←
      assert_positive_capacity_bytes (or_default options.max_write_ahead_capacity_bytes (512 * mib))
  stale_ms ← assert_positive_integer (or_default options.file_lock_stale_ms 30_000)
  check_order
      (assemble options initial_database max_database initial_write_ahead max_write_ahead stale_ms)
