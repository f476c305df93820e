-- ===== src/Registry/Diagnostics.antt =====
-- The diagnostics of a runtime (src/memoryWriteAheadSharedRuntime.ts):
-- getMemoryWriteAheadRuntimeDiagnostics.
use Prim.Native.String.{String}
use memory_write_ahead_vfs.Base.{
  ℕ, zero, suc, ◌+◌, ◌-◌, ◌*◌, ◌≤◌, ◌<◌, ◌≡◌, sym, leb→le, ap, ◌∙◌, Bool, true, not, Option, none,
  some, List, [], ◌∷◌, length, take, ℤ, pos, eqb_ℤ, leb_ℤ, ◌≤ℤ◌, if◌then◌else◌, arith, Bool-cases,
  inl, inr,
}
use memory_write_ahead_vfs.Clock.{get_memory_write_ahead_lock_age_ms}
use memory_write_ahead_vfs.Options.{ResolvedRuntimeOptions}
use memory_write_ahead_vfs.SharedFile.{
  Segment, SharedFile, Counters, sum_bytes, byte_length, get_active_segment_count,
  get_allocated_capacity_bytes, get_file_capacity_bytes, get_file_size_bytes,
}
use memory_write_ahead_vfs.SharedFile.Create.{Host}
use memory_write_ahead_vfs.SharedFile.Invariant.{IsWellFormed, filled, active_count}
use memory_write_ahead_vfs.Lease.{count_active_owner_leases}
use memory_write_ahead_vfs.Registry.Keys.{Table, find_key}
use memory_write_ahead_vfs.Registry.{SharedRuntime, Registry}

abbrev pub max_ℤ : ℤ → ℤ → ℤ
max_ℤ a b = if leb_ℤ a b then b else a

-- `counters` are the diagnostics that are read from slots of their own as they are.
pub record FileDiagnostics : Type 0 where
  pub allocated_capacity_bytes : ℕ
  pub capacity_bytes : ℕ
  pub current_capacity_bytes : ℕ
  pub logical_size_bytes : ℕ
  pub max_capacity_bytes : ℕ
  pub pathname : String
  pub segment_capacity_bytes : ℕ
  pub segment_count : ℕ
  pub total_segment_count : ℕ
  pub peak_logical_size_bytes : ℤ
  pub peak_capacity_bytes : ℤ
  pub peak_allocated_capacity_bytes : ℤ
  pub counters : Counters
  pub lock_state : ℤ
  pub lock_owner : ℤ
  pub lock_heartbeat_age_ms : Option ℕ
  pub recovered_abandoned_lock_count : ℤ
  pub abandoned_transaction : Bool
  pub transaction_lock_runtime_owner : ℤ
  pub transaction_lock_state : ℤ

-- MemoryWriteAheadRuntimeDiagnostics; `segmentedSharedArrayBuffers` is always true.
pub record RuntimeDiagnostics : Type 0 where
  pub active_owner_lease_count : ℕ
  pub capacities : ResolvedRuntimeOptions
  pub db_filename : String
  pub files : List FileDiagnostics
  pub open_handle_count : ℤ
  pub recovered_abandoned_handle_count : ℤ
  pub segmented_shared_array_buffers : Bool

-- With the clock at `now_ms`.
unfoldable pub file_diagnostics : ℕ → SharedFile → FileDiagnostics
unfolding get_allocated_capacity_bytes get_file_capacity_bytes get_file_size_bytes
    get_active_segment_count get_memory_write_ahead_lock_age_ms
file_diagnostics now_ms f =
    let w = f.meta.words in
    let c = f.meta.counters in
    record {
      allocated_capacity_bytes = get_allocated_capacity_bytes f;
      capacity_bytes = get_file_capacity_bytes f;
      current_capacity_bytes = get_file_capacity_bytes f;
      logical_size_bytes = get_file_size_bytes f;
      max_capacity_bytes = f.max_capacity_bytes;
      pathname = f.pathname;
      segment_capacity_bytes = f.segment_capacity_bytes;
      segment_count = get_active_segment_count f;
      total_segment_count = length f.segments;
      peak_logical_size_bytes = max_ℤ (pos (get_file_size_bytes f)) c.peak_logical_size_bytes;
      peak_capacity_bytes = max_ℤ (pos (get_file_capacity_bytes f)) c.peak_capacity_bytes;
      peak_allocated_capacity_bytes =
          max_ℤ (pos (get_allocated_capacity_bytes f)) c.peak_allocated_capacity_bytes;
      counters = c;
      lock_state = w.lock;
      lock_owner = if eqb_ℤ w.lock (pos 0) then pos 0 else w.lock_owner;
      lock_heartbeat_age_ms =
          if eqb_ℤ w.lock (pos 0)
          then none
          else get_memory_write_ahead_lock_age_ms w.lock_heartbeat_ms now_ms;
      recovered_abandoned_lock_count = w.recovered_abandoned_lock_count;
      abandoned_transaction = not (eqb_ℤ f.meta.transaction.abandoned_transaction (pos 0));
      transaction_lock_runtime_owner = f.meta.transaction.transaction_lock_runtime_owner;
      transaction_lock_state = f.meta.transaction.transaction_lock;
    }

abbrev pub all_diagnostics : ℕ → Table SharedFile → List FileDiagnostics
all_diagnostics now_ms [] = []
all_diagnostics now_ms (entry ∷ files) =
    file_diagnostics now_ms entry.1 ∷ all_diagnostics now_ms files

abbrev pub diagnostics_of : ℕ → Option SharedRuntime → Option RuntimeDiagnostics
diagnostics_of now_ms none = none
diagnostics_of now_ms (some r) = some (record {
  active_owner_lease_count = count_active_owner_leases r.registry_meta.slots;
  capacities = r.capacities;
  db_filename = r.db_filename;
  files = all_diagnostics now_ms r.files;
  open_handle_count = r.registry_meta.open_handle_count;
  recovered_abandoned_handle_count = r.registry_meta.recovered_abandoned_handle_count;
  segmented_shared_array_buffers = true;
})

unfoldable pub get_memory_write_ahead_runtime_diagnostics :
    Host → ℕ → String → Registry → Option RuntimeDiagnostics
unfolding file_diagnostics count_active_owner_leases
get_memory_write_ahead_runtime_diagnostics host now_ms db_filename registry =
    diagnostics_of now_ms (find_key (host.url_pathname db_filename) registry)

sum_bytes-take :
    (segments : List Segment) (n c : ℕ)
    → n < length segments
    → ((k : ℕ) → k < n → filled segments k ≡ c)
    → sum_bytes (take (suc n) segments) ≡ n * c + filled segments n
sum_bytes-take [] n c h full = absurd (omega arith)
sum_bytes-take (s ∷ ss) zero c h full = omega arith
sum_bytes-take (s ∷ ss) (suc n) c h full =
    let first : byte_length s ≡ c = full 0 (omega arith) in
    let rest = sum_bytes-take ss n c (omega arith) (λ k lt. full (suc k) (omega (arith, lt))) in
    let grows : suc n * c ≡ c + n * c = omega arith in omega (arith, first, rest, grows)

sum_bytes-take-le :
    (n : ℕ) (segments : List Segment) → sum_bytes (take n segments) ≤ sum_bytes segments
sum_bytes-take-le zero segments = omega arith
sum_bytes-take-le (suc n) [] = omega arith
sum_bytes-take-le (suc n) (s ∷ ss) = omega (arith, sum_bytes-take-le n ss)

max_ℤ-le : (a b : ℤ) → a ≤ℤ max_ℤ a b
max_ℤ-le a b = elim (Bool-cases (leb_ℤ a b)) [
  | inl e ↦ rw e (leb→le _ _ e)
  | inr e ↦ rw e (omega arith)
]

size-le-capacity : {f : SharedFile} → IsWellFormed f → f.meta.size ≤ get_file_capacity_bytes f
unfolding get_file_capacity_bytes get_active_segment_count
size-le-capacity {f} w =
    let n = active_count f - 1 in
    let last : suc n ≡ active_count f = omega arith in
    let capacity : sum_bytes (take (active_count f) f.segments)
        ≡ n * f.segment_capacity_bytes + filled f.segments n =
      ap (λ m. sum_bytes (take m f.segments)) (sym last)
      ∙ sum_bytes-take f.segments n f.segment_capacity_bytes (omega (arith, w.active, last))
          (λ k lt. w.full k (omega (arith, lt, last))) in
    omega (arith, w.sized, capacity)

capacity-le-allocated : (f : SharedFile) → get_file_capacity_bytes f ≤ sum_bytes f.segments
unfolding get_file_capacity_bytes
capacity-le-allocated f = sum_bytes-take-le (get_active_segment_count f) f.segments

-- The sizes that are shown of a well-formed file are in order: its logical size is at most the current
-- capacity, that at most the allocated one, the active segments are at most all of them, and no size
-- is above its peak.
pub file_diagnostics-InOrder :
    (now_ms : ℕ) {f : SharedFile}
    → IsWellFormed f
    → (let d = file_diagnostics now_ms f in
        (d.logical_size_bytes ≤ d.current_capacity_bytes)
        × (d.current_capacity_bytes ≤ d.allocated_capacity_bytes)
        × (d.segment_count ≤ d.total_segment_count)
        × (pos d.logical_size_bytes ≤ℤ d.peak_logical_size_bytes)
        × (pos d.capacity_bytes ≤ℤ d.peak_capacity_bytes)
        × (pos d.allocated_capacity_bytes ≤ℤ d.peak_allocated_capacity_bytes))
unfolding file_diagnostics get_file_size_bytes get_allocated_capacity_bytes get_active_segment_count
file_diagnostics-InOrder now_ms {f} w = (
  size-le-capacity w,
  capacity-le-allocated f,
  w.active,
  max_ℤ-le (pos f.meta.size) f.meta.counters.peak_logical_size_bytes,
  max_ℤ-le (pos (get_file_capacity_bytes f)) f.meta.counters.peak_capacity_bytes,
  max_ℤ-le (pos (sum_bytes f.segments)) f.meta.counters.peak_allocated_capacity_bytes,
)
