-- ===== src/Lease/Tests.antt =====
-- Contexts with leases, and the theorems on them.
use memory_write_ahead_vfs.Base.{ℕ, ◌+◌, ◌≡◌, refl, arith, none, some, [], ◌∷◌, ℤ, pos, length}
use memory_write_ahead_vfs.Lease.{
  LeaseSlot, Runtime, LocalLease, recover_abandoned_runtime_owner_leases,
}
use memory_write_ahead_vfs.Lease.Operations.{
  retain_memory_write_ahead_runtime_handle, release_memory_write_ahead_runtime_handle,
}
use memory_write_ahead_vfs.Lease.Counts.{
  IsCounted, total_handles, recover_abandoned_runtime_owner_leases-IsCounted,
}
use memory_write_ahead_vfs.Lease.Handles.{Retains, retain-Retains}
use memory_write_ahead_vfs.Lease.Release.{Releases, LetsGo, release-Releases, retain-release-leaks}

abbrev slot : ℕ → ℕ → ℕ → LeaseSlot
slot owner handles heartbeat = record {
  owner_id = pos owner;
  handle_count = pos handles;
  heartbeat_ms = pos heartbeat;
}

-- Two owners with three handles.
abbrev shared : Runtime
shared = record {
  open_handle_count = pos 3;
  recovered_abandoned_handle_count = pos 0;
  slots = slot 7 1 1 ∷ slot 9 2 60000 ∷ slot 0 0 0 ∷ [];
  files = [];
  file_lock_stale_ms = 30000;
}

abbrev own : LocalLease
own = record { handle_count = 2; owner_id = pos 9; slot_index = 1 }

abbrev reload : ℕ → ℤ → ℤ
reload i beat = beat

shared-IsCounted : IsCounted shared
shared-IsCounted =
    (refl, ((refl, λ e. cc), ((refl, λ e. cc), ((refl, λ e. refl), tt))), omega arith)

retain_example :
    Retains
      (record { lease = none; runtime = shared })
      (retain_memory_write_ahead_runtime_handle 60000 reload
        (pos 12)
        (record { lease = none; runtime = shared }))
retain_example =
    retain-Retains 60000 reload 11 (record { lease = none; runtime = shared }) shared-IsCounted tt
      (omega arith)

release_example :
    let c' =
      release_memory_write_ahead_runtime_handle 60000
        (record { lease = some own; runtime = shared }) in
    Releases shared c'.runtime × LetsGo own c'
release_example =
    release-Releases 60000 own shared shared-IsCounted (omega arith, refl, refl, refl) (omega arith)

recover_abandoned_example :
    let (n, r') = recover_abandoned_runtime_owner_leases 60000 reload shared in
    IsCounted r' × (n + total_handles r'.slots ≡ 3) × (length r'.slots ≡ 3)
recover_abandoned_example =
    recover_abandoned_runtime_owner_leases-IsCounted 60000 reload shared shared-IsCounted

-- A lease whose slot has been recovered and cleared.
abbrev lost : LocalLease
lost = record { handle_count = 1; owner_id = pos 5; slot_index = 2 }

leak_example :
    (release_memory_write_ahead_runtime_handle 60001
      (retain_memory_write_ahead_runtime_handle 60000 reload
        (pos 1)
        (record { lease = some lost; runtime = shared })).1).runtime.open_handle_count
    ≡ pos (3 + 1)
leak_example =
    retain-release-leaks 60000 60001 reload (pos 1) lost shared 3 (omega arith) refl refl
      (omega arith)
