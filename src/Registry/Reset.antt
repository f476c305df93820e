-- ===== src/Registry/Reset.antt =====
-- Resetting one runtime or all of them (src/memoryWriteAheadSharedRuntime.ts):
-- resetMemoryWriteAheadSharedRuntime. The leases of a context stand beside the registry, by the path of
-- their runtime.
use Prim.Native.String.{String}
use memory_write_ahead_vfs.Base.{
  ◌<◌, ap, ◌∙◌, refl, ℕ, false, Option, none, some, List, [], ◌∷◌, ℤ, Result, ok, err, ◌≡◌, ◌∙◌,
}
use mathlib.Core.Path.{subst, sym}
use memory_write_ahead_vfs.SharedFile.Create.{Host}
use memory_write_ahead_vfs.Lease.{
  Context, Runtime, LocalLease, LeaseError, open_handles_remain,
  recover_abandoned_runtime_owner_leases,
}
use memory_write_ahead_vfs.Lease.Counts.{IsCounted, total_handles}
use memory_write_ahead_vfs.Lease.Reset.{Resets, reset-Resets}
use memory_write_ahead_vfs.Lease.Operations.{reset_memory_write_ahead_runtime_state}
use memory_write_ahead_vfs.Registry.Keys.{
  Table, same_text, find_key, store_key, delete_key, find_key-delete_key, find_key-store_key,
  find_key-store_other, find_key-delete_other,
}
use memory_write_ahead_vfs.Registry.{SharedRuntime, Registry}

-- A context's `localRuntimeLeases`, and the registry.
pub record Global : Type 0 where
  pub leases : Table LocalLease
  pub registry : Registry

abbrev pub values : {A : Type 0} → Table A → List A
values [] = []
values (entry ∷ table) = entry.1 ∷ values table

abbrev pub with_values : {A : Type 0} → List A → Table A → Table A
with_values files [] = []
with_values [] (entry ∷ table) = entry ∷ table
with_values (f ∷ files) (entry ∷ table) = (entry.0, f) ∷ with_values files table

abbrev pub context_of : Table LocalLease → SharedRuntime → Context
context_of leases r = record {
  lease = find_key r.db_filename leases;
  runtime = record {
    open_handle_count = r.registry_meta.open_handle_count;
    recovered_abandoned_handle_count = r.registry_meta.recovered_abandoned_handle_count;
    slots = r.registry_meta.slots;
    files = values r.files;
    file_lock_stale_ms = r.capacities.file_lock_stale_ms;
  };
}

abbrev pub runtime_of : Context → SharedRuntime → SharedRuntime
runtime_of c r = record r {
  files = with_values c.runtime.files r.files;
  registry_meta = record {
    open_handle_count = c.runtime.open_handle_count;
    recovered_abandoned_handle_count = c.runtime.recovered_abandoned_handle_count;
    slots = c.runtime.slots;
  };
}

abbrev pub leases_of : String → Option LocalLease → Table LocalLease → Table LocalLease
leases_of name none leases = delete_key name leases
leases_of name (some lease) leases = store_key name lease leases

-- The runtime in the registry under `name` is the one of the context.
abbrev pub put_context : String → SharedRuntime → Context → Global → Global
put_context name r c g = record {
  leases = leases_of r.db_filename c.lease g.leases;
  registry = store_key name (runtime_of c r) g.registry;
}

abbrev pub reset_at :
    String
    → SharedRuntime
    → Result LeaseError (Unit {0}) × Context
    → Global
    → Result LeaseError (Unit {0}) × Global
reset_at name r (err e, c) g = (err e, put_context name r c g)
reset_at name r (ok _, c) g = (ok tt, put_context name r c g)

unfoldable pub reset_runtime :
    ℕ → (ℕ → ℤ → ℤ) → String → SharedRuntime → Global → Result LeaseError (Unit {0}) × Global
unfolding reset_memory_write_ahead_runtime_state
reset_runtime now reload name r g =
    reset_at name r (reset_memory_write_ahead_runtime_state now reload (context_of g.leases r)) g

abbrev pub then_delete :
    String → Result LeaseError (Unit {0}) × Global → Result LeaseError (Unit {0}) × Global
then_delete name (err e, g) = (err e, g)
then_delete name (ok _, g) = (ok tt, record g { registry = delete_key name g.registry })

abbrev pub reset_found :
    ℕ → (ℕ → ℤ → ℤ) → String → Option SharedRuntime → Global → Result LeaseError (Unit {0}) × Global
reset_found now reload name none g = (ok tt, g)
reset_found now reload name (some r) g = then_delete name (reset_runtime now reload name r g)

-- The loop over the registry's values; an error ends it.
unfoldable pub reset_each :
    ℕ → (ℕ → ℤ → ℤ) → Registry → Global → Result LeaseError (Unit {0}) × Global
unfolding reset_runtime
reset_each now reload [] g = (ok tt, g)
reset_each now reload (entry ∷ entries) g =
    let out = reset_runtime now reload entry.0 entry.1 g in
    let rest = reset_each now reload entries out.1 in
    elim (out.0) [ err e ↦ (err e, out.1) | ok _ ↦ rest ]

abbrev pub then_clear :
    Result LeaseError (Unit {0}) × Global → Result LeaseError (Unit {0}) × Global
then_clear (err e, g) = (err e, g)
then_clear (ok _, g) = (ok tt, record g { registry = [] })

unfoldable pub reset_memory_write_ahead_shared_runtime :
    Host → ℕ → (ℕ → ℤ → ℤ) → Option String → Global → Result LeaseError (Unit {0}) × Global
unfolding reset_runtime reset_each
reset_memory_write_ahead_shared_runtime host now reload (some db_filename) g =
    reset_found now reload (host.url_pathname db_filename)
      (find_key (host.url_pathname db_filename) g.registry) g
reset_memory_write_ahead_shared_runtime host now reload none g =
    then_clear (reset_each now reload g.registry g)

-- What a reset of the runtime `r`, registered under `name`, comes to; `after` is its runtime after the
-- recovery of abandoned leases.
abbrev pub Removes :
    String → SharedRuntime → Runtime → Result LeaseError (Unit {0}) × Global → Type 0
Removes name r after (ok _, g) =
    (total_handles after.slots ≡ 0)
    × (find_key name g.registry ≡ none)
    × (find_key r.db_filename g.leases ≡ none)
Removes name r after (err e, g) =
    (0 < total_handles after.slots)
    × (e ≡ open_handles_remain)
    × ((stays : SharedRuntime) × (find_key name g.registry ≡ some stays)
        × (stays.db_filename ≡ r.db_filename)
        × (stays.registry_meta.slots ≡ after.slots)
        × (stays.registry_meta.open_handle_count ≡ after.open_handle_count))

reset_at-Removes :
    (name other : String) (r : SharedRuntime) (after : Runtime) (c : Context)
    (out : Result LeaseError (Unit {0}) × Context) (g : Global)
    → Resets after c out
    → same_text name other ≡ false
    → (let done = then_delete name (reset_at name r out g) in
        Removes name r after done × (find_key other done.1.registry ≡ find_key other g.registry))
reset_at-Removes name other r after c (err e, t) g (remain, same, lease, kept) differ = (
  (
    remain,
    same,
    (
      runtime_of t r,
      find_key-store_key name (runtime_of t r) g.registry,
      refl,
      ap (λ x. x.slots) kept,
      ap (λ x. x.open_handle_count) kept,
    ),
  ),
  find_key-store_other name other (runtime_of t r) g.registry differ,
)
reset_at-Removes name other r after c (ok _, t) g (nothing, lease, count, total, blank, all)
      differ =
    let stored = store_key name (runtime_of t r) g.registry in
    (
      (
        nothing,
        find_key-delete_key name stored,
        ap (λ o. find_key r.db_filename (leases_of r.db_filename o g.leases)) lease
            ∙ find_key-delete_key r.db_filename g.leases,
      ),
      find_key-delete_other name other stored differ
          ∙ find_key-store_other name other (runtime_of t r) g.registry differ,
    )

abbrev pub ResetsShared : Host → ℕ → (ℕ → ℤ → ℤ) → String → String → SharedRuntime → Global → Type 0
ResetsShared host now reload db_filename other r g =
    let out = reset_memory_write_ahead_shared_runtime host now reload (some db_filename) g in
    Removes (host.url_pathname db_filename) r
      (recover_abandoned_runtime_owner_leases now reload (context_of g.leases r).runtime).1 out
    × (find_key other out.1.registry ≡ find_key other g.registry)

-- A reset by name of a registered runtime whose open handle count is the sum of its slots' counts: if it
-- returns, no handles have remained after the recovery of abandoned leases, and the runtime is gone from
-- the registry and its lease from the context; if it throws, handles have remained, and the runtime stays
-- in the registry with the recovered slots and count. The registry's entry of every other path is as before.
pub reset_shared-Resets :
    (host : Host) (now : ℕ) (reload : ℕ → ℤ → ℤ) (db_filename other : String) (r : SharedRuntime)
    (g : Global)
    → IsCounted (context_of g.leases r).runtime
    → find_key (host.url_pathname db_filename) g.registry ≡ some r
    → same_text (host.url_pathname db_filename) other ≡ false
    → ResetsShared host now reload db_filename other r g
unfolding reset_memory_write_ahead_shared_runtime reset_runtime
reset_shared-Resets host now reload db_filename other r g counted found differ =
    let name = host.url_pathname db_filename in
    let c = context_of g.leases r in
    let after = (recover_abandoned_runtime_owner_leases now reload c.runtime).1 in
    subst
      (λ o.
        Removes name r after (reset_found now reload name o g)
        × (find_key other (reset_found now reload name o g).1.registry ≡ find_key other g.registry))
      (sym found)
      (reset_at-Removes name other r after c (reset_memory_write_ahead_runtime_state now reload c) g
        (reset-Resets now reload c counted) differ)
