-- ===== src/Lease/Operations.antt =====
-- Leasing, retaining, releasing, recovering and resetting (src/memoryWriteAheadSharedRuntime.ts).
use memory_write_ahead_vfs.Base.{
  ℕ, ◌+◌, ◌-◌, ◌&&◌, Option, none, some, List, [], ◌∷◌, ℤ, pos, eqb_ℤ, ltb_ℤ, leb_ℤ, ◌==◌,
  if◌then◌else◌, atomic_add, atomic_sub, Result, ok, err,
}
use memory_write_ahead_vfs.SharedFile.{
  SharedFile, no_meta, record_memory_write_ahead_file_high_water, min_segment_count,
}
use memory_write_ahead_vfs.Lease.{
  LeaseSlot, no_lease, Runtime, LocalLease, Context, LeaseError, clear_owner_lease_slot, slot_at,
  with_slot, update_owner_lease_heartbeat, reduce_open_handle_count, Tally, recover_slot, tally_of,
  with_tally, recover_abandoned_runtime_owner_leases, claim_owner_lease_slot,
  lease_capacity_exhausted, open_handles_remain,
}

abbrev pub new_lease : ℤ → ℕ → LocalLease
new_lease owner i = record { handle_count = 0; owner_id = owner; slot_index = i }

abbrev pub with_slots : List LeaseSlot → Runtime → Runtime
with_slots ss r = record r { slots = ss }

unfoldable pub claim_again :
    ℤ → Runtime → Option (ℕ × List LeaseSlot) → Result LeaseError LocalLease × Runtime
claim_again owner r (some (i, ss)) = (ok (new_lease owner i), with_slots ss r)
claim_again owner r none = (err lease_capacity_exhausted, r)

unfoldable pub claim_or_recover :
    ℕ
    → (ℕ → ℤ → ℤ)
    → ℤ
    → Runtime
    → Option (ℕ × List LeaseSlot)
    → Result LeaseError LocalLease × Runtime
unfolding claim_owner_lease_slot recover_abandoned_runtime_owner_leases claim_again
claim_or_recover now reload owner r (some (i, ss)) = (ok (new_lease owner i), with_slots ss r)
claim_or_recover now reload owner r none =
    let r' = (recover_abandoned_runtime_owner_leases now reload r).1 in
    claim_again owner r' (claim_owner_lease_slot r'.file_lock_stale_ms now owner r'.slots)

-- ensureLocalRuntimeLease of a context that has no lease; `owner` is the random id of a new one.
unfoldable pub new_local_runtime_lease :
    ℕ → (ℕ → ℤ → ℤ) → ℤ → Runtime → Result LeaseError LocalLease × Runtime
unfolding claim_owner_lease_slot claim_or_recover
new_local_runtime_lease now reload owner r =
    claim_or_recover now reload owner r
      (claim_owner_lease_slot r.file_lock_stale_ms now owner r.slots)

unfoldable pub ensure_local_runtime_lease :
    ℕ → (ℕ → ℤ → ℤ) → ℤ → Context → Result LeaseError LocalLease × Runtime
unfolding new_local_runtime_lease
ensure_local_runtime_lease now reload owner c = elim (c.lease) [
  | some existing_lease ↦ (ok existing_lease, c.runtime)
  | none ↦ new_local_runtime_lease now reload owner (c.runtime)
]

-- What retainMemoryWriteAheadRuntimeHandle does with its lease.
unfoldable pub retain_lease : ℕ → LocalLease → Runtime → LocalLease × Runtime
unfolding update_owner_lease_heartbeat
retain_lease now lease r =
    let lease' = record lease { handle_count = lease.handle_count + 1 } in
    let s = slot_at r lease.slot_index in
    let r' = record r { open_handle_count = atomic_add r.open_handle_count 1 } in
    (
      lease',
      update_owner_lease_heartbeat now lease'
          (with_slot lease.slot_index (record s { handle_count = atomic_add s.handle_count 1 }) r'),
    )

unfoldable pub retain_ready :
    ℕ → Context → Result LeaseError LocalLease × Runtime → Result LeaseError ℤ × Context
unfolding retain_lease
retain_ready now c (err e, r) = (err e, record c { runtime = r })
retain_ready now c (ok lease, r) =
    let (lease', r') = retain_lease now lease r in
    (ok lease'.owner_id, record { lease = some lease'; runtime = r' })

unfoldable pub retain_memory_write_ahead_runtime_handle :
    ℕ → (ℕ → ℤ → ℤ) → ℤ → Context → Result LeaseError ℤ × Context
unfolding ensure_local_runtime_lease retain_ready
retain_memory_write_ahead_runtime_handle now reload owner c =
    retain_ready now c (ensure_local_runtime_lease now reload owner c)

-- The slot's handle is given back, where it has one.
unfoldable pub release_slot_handle : ℕ → Runtime → Runtime
unfolding reduce_open_handle_count
release_slot_handle i r =
    let s = slot_at r i in
    if ltb_ℤ (pos 0) s.handle_count
    then with_slot i (record s { handle_count = atomic_sub s.handle_count 1 })
        (record r { open_handle_count = (reduce_open_handle_count r.open_handle_count (pos 1)).1 })
    else r

-- `lease` has been counted down.
unfoldable pub release_slot : ℕ → LocalLease → Runtime → Runtime
unfolding release_slot_handle clear_owner_lease_slot update_owner_lease_heartbeat
release_slot now lease r =
    let s = slot_at r lease.slot_index in
    let r' = release_slot_handle lease.slot_index r in
    if eqb_ℤ s.owner_id lease.owner_id
    then if leb_ℤ s.handle_count (pos 1) && (lease.handle_count == 0)
      then with_slot lease.slot_index (clear_owner_lease_slot (slot_at r' lease.slot_index)) r'
      else update_owner_lease_heartbeat now lease r'
    else r

unfoldable pub release_memory_write_ahead_runtime_handle : ℕ → Context → Context
unfolding release_slot
release_memory_write_ahead_runtime_handle now c = elim (c.lease) [
  | none ↦ c
  | some lease ↦
      let lease' = record lease { handle_count = lease.handle_count - 1 } in
      record {
        lease = if lease'.handle_count == 0 then none else some lease';
        runtime = release_slot now lease' (c.runtime);
      }
]

unfoldable pub get_memory_write_ahead_runtime_owner_id : Context → Option ℤ
get_memory_write_ahead_runtime_owner_id c = elim (c.lease) [
  | none ↦ none
  | some lease ↦ some (lease.owner_id)
]

-- The first slot with the owner id, recovered.
unfoldable pub recover_owner_slot : ℤ → List LeaseSlot → Tally → List LeaseSlot × Tally
unfolding recover_slot clear_owner_lease_slot
recover_owner_slot owner [] t = ([], t)
recover_owner_slot owner (s ∷ ss) t =
    let rest = recover_owner_slot owner ss t in
    if eqb_ℤ s.owner_id owner
    then (clear_owner_lease_slot s ∷ ss, recover_slot owner s.handle_count t)
    else (s ∷ rest.0, rest.1)

unfoldable pub recover_terminated_memory_write_ahead_runtime_owner : ℤ → Runtime → ℕ × Runtime
unfolding recover_owner_slot
recover_terminated_memory_write_ahead_runtime_owner owner r =
    if leb_ℤ owner (pos 0)
    then (0, r)
    else let (ss, t) = recover_owner_slot owner r.slots (tally_of r) in
      (t.recovered_handle_count, with_tally ss t r)

-- Every slot of the file's metadata 0, but for the one active segment.
unfoldable pub reset_file : SharedFile → SharedFile
unfolding record_memory_write_ahead_file_high_water
reset_file f =
    record_memory_write_ahead_file_high_water
      (record f { meta = record no_meta { active_segment_count = min_segment_count } })

abbrev pub clear_slots : List LeaseSlot → List LeaseSlot
clear_slots [] = []
clear_slots (s ∷ ss) = no_lease ∷ clear_slots ss

abbrev pub reset_files : List SharedFile → List SharedFile
reset_files [] = []
reset_files (f ∷ fs) = reset_file f ∷ reset_files fs

unfoldable pub reset_memory_write_ahead_runtime_state :
    ℕ → (ℕ → ℤ → ℤ) → Context → Result LeaseError (Unit {0}) × Context
unfolding recover_abandoned_runtime_owner_leases reset_file
reset_memory_write_ahead_runtime_state now reload c =
    let r = (recover_abandoned_runtime_owner_leases now reload c.runtime).1 in
    if ltb_ℤ (pos 0) r.open_handle_count
    then (err open_handles_remain, record c { runtime = r })
    else (
      ok tt,
      record {
        lease = none;
        runtime = record r {
          open_handle_count = pos 0;
          recovered_abandoned_handle_count = pos 0;
          slots = clear_slots r.slots;
          files = reset_files r.files;
        };
      },
    )
