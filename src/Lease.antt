-- ===== src/Lease.antt =====
-- Owner leases of a shared runtime (src/memoryWriteAheadSharedRuntime.ts): the slots in which each
-- context counts its open handles, their recovery, and the quarantine of transaction locks.
-- A call runs between the accesses of the other contexts, but for the second load of a heartbeat
-- in the recovery: what it finds is an argument.
pub mod Operations
pub mod Counts
pub mod Claims
pub mod Handles
pub mod Release
pub mod Reset
mod Tests
use memory_write_ahead_vfs.Base.{
  ℕ, zero, suc, ◌+◌, ◌-◌, ◌*◌, ◌/◌, min, max, Bool, true, false, ◌&&◌, ◌||◌, not, Option, none,
  some, List, [], ◌∷◌, ℤ, pos, neg, pos_part, neg_part, eqb_ℤ, ltb_ℤ, leb_ℤ, leb, ◌==◌,
  if◌then◌else◌, atomic_add, atomic_sub, get_or, set, replicate, Result, ok, err,
}
use memory_write_ahead_vfs.SharedFile.{
  SharedFile, FileMeta, TransactionWords, no_meta, record_memory_write_ahead_file_high_water,
  min_segment_count,
}
use memory_write_ahead_vfs.Clock.{
  get_memory_write_ahead_lock_clock_ms, get_memory_write_ahead_lock_age_ms,
}

abbrev pub memory_write_ahead_owner_lease_slot_count : ℕ
memory_write_ahead_owner_lease_slot_count = 32

-- MEMORY_WRITE_AHEAD_OWNER_LEASE_META
pub record LeaseSlot : Type 0 where
  pub owner_id : ℤ
  pub handle_count : ℤ
  pub heartbeat_ms : ℤ

abbrev pub no_lease : LeaseSlot
no_lease = record { owner_id = pos 0; handle_count = pos 0; heartbeat_ms = pos 0 }

-- The shared state of a runtime: MEMORY_WRITE_AHEAD_RUNTIME_META, the slots and the files.
pub record Runtime : Type 0 where
  pub open_handle_count : ℤ
  pub recovered_abandoned_handle_count : ℤ
  pub slots : List LeaseSlot
  pub files : List SharedFile
  pub file_lock_stale_ms : ℕ

-- LocalRuntimeLease, without its timer and its key in the map
pub record LocalLease : Type 0 where
  pub handle_count : ℕ
  pub owner_id : ℤ
  pub slot_index : ℕ

-- One context: its entry of `localRuntimeLeases` for the runtime, and the runtime.
pub record Context : Type 0 where
  pub lease : Option LocalLease
  pub runtime : Runtime

pub data LeaseError : Type 0 where
  lease_capacity_exhausted open_handles_remain : LeaseError

unfoldable pub get_owner_lease_heartbeat_interval_ms : Runtime → ℕ
get_owner_lease_heartbeat_interval_ms r = max 50 (min 1000 (r.file_lock_stale_ms / 3))

unfoldable pub count_active_owner_leases : List LeaseSlot → ℕ
count_active_owner_leases [] = 0
count_active_owner_leases (s ∷ ss) =
    (if ltb_ℤ (pos 0) s.owner_id then 1 else 0) + count_active_owner_leases ss

unfoldable pub clear_owner_lease_slot : LeaseSlot → LeaseSlot
clear_owner_lease_slot s = no_lease

abbrev pub slot_at : Runtime → ℕ → LeaseSlot
slot_at r i = get_or r.slots i no_lease

abbrev pub with_slot : ℕ → LeaseSlot → Runtime → Runtime
with_slot i s r = record r { slots = set r.slots i s }

unfoldable pub update_owner_lease_heartbeat : ℕ → LocalLease → Runtime → Runtime
update_owner_lease_heartbeat now lease r =
    if eqb_ℤ (slot_at r lease.slot_index).owner_id lease.owner_id && not (leb lease.handle_count 0)
    then with_slot lease.slot_index
        (record (slot_at r lease.slot_index) {
          heartbeat_ms = pos (get_memory_write_ahead_lock_clock_ms now);
        })
        r
    else r

-- The number released, and the counter that is left.
unfoldable pub reduce_open_handle_count : ℤ → ℤ → ℕ × ℤ
reduce_open_handle_count open_handle_count released =
    if leb_ℤ released (pos 0)
    then (0, open_handle_count)
    else if ltb_ℤ (pos 0) open_handle_count
    then (
      pos_part open_handle_count - (pos_part open_handle_count - pos_part released),
      pos (pos_part open_handle_count - pos_part released),
    )
    else (0, open_handle_count)

unfoldable pub quarantine_file : ℤ → SharedFile → SharedFile
quarantine_file owner f =
    if eqb_ℤ f.meta.transaction.transaction_lock_runtime_owner owner
      && not (eqb_ℤ f.meta.transaction.transaction_lock (pos 0))
    then record f {
      meta = record (f.meta) {
        transaction = record (f.meta.transaction) { abandoned_transaction = pos 1 };
      };
    }
    else f

unfoldable pub quarantine_transaction_locks_for_runtime_owner :
    ℤ → List SharedFile → List SharedFile
unfolding quarantine_file
quarantine_transaction_locks_for_runtime_owner owner [] = []
quarantine_transaction_locks_for_runtime_owner owner (f ∷ fs) =
    quarantine_file owner f ∷ quarantine_transaction_locks_for_runtime_owner owner fs

-- What the recoveries of slots change besides the slots, and the number of handles recovered.
pub record Tally : Type 0 where
  pub open_handle_count : ℤ
  pub recovered_abandoned_handle_count : ℤ
  pub files : List SharedFile
  pub recovered_handle_count : ℕ

-- The end of both recoveries of a claimed slot.
unfoldable pub recover_slot : ℤ → ℤ → Tally → Tally
unfolding reduce_open_handle_count quarantine_transaction_locks_for_runtime_owner
recover_slot owner handle_count t =
    let (released, left) = reduce_open_handle_count t.open_handle_count handle_count in
    record {
      open_handle_count = left;
      recovered_abandoned_handle_count = atomic_add t.recovered_abandoned_handle_count released;
      files = quarantine_transaction_locks_for_runtime_owner owner t.files;
      recovered_handle_count = t.recovered_handle_count + released;
    }

abbrev pub is_stale : ℕ → ℕ → ℤ → Bool
is_stale stale now heartbeat =
    elim (get_memory_write_ahead_lock_age_ms heartbeat (get_memory_write_ahead_lock_clock_ms now)) [
      | none ↦ false
      | some age ↦ not (leb age stale)
    ]

-- One round of recoverAbandonedRuntimeOwnerLeases; `reloaded` is what its second load of the
-- heartbeat finds.
unfoldable pub recover_abandoned_slot : ℕ → ℕ → ℤ → LeaseSlot → Tally → LeaseSlot × Tally
unfolding clear_owner_lease_slot recover_slot
recover_abandoned_slot stale now reloaded s t =
    if leb_ℤ s.owner_id (pos 0)
    then (s, t)
    else if not (is_stale stale now s.heartbeat_ms)
    then (s, t)
    else if not (eqb_ℤ reloaded s.heartbeat_ms)
    then (record s { heartbeat_ms = reloaded }, t)
    else (clear_owner_lease_slot s, recover_slot s.owner_id s.handle_count t)

unfoldable pub recover_abandoned_slots :
    ℕ → ℕ → (ℕ → ℤ → ℤ) → List LeaseSlot → Tally → List LeaseSlot × Tally
unfolding recover_abandoned_slot
recover_abandoned_slots stale now reload [] t = ([], t)
recover_abandoned_slots stale now reload (s ∷ ss) t =
    let (s', t') = recover_abandoned_slot stale now (reload 0 s.heartbeat_ms) s t in
    let (ss', t'') = recover_abandoned_slots stale now (λ i. reload (suc i)) ss t' in
    (s' ∷ ss', t'')

abbrev pub tally_of : Runtime → Tally
tally_of r = record {
  open_handle_count = r.open_handle_count;
  recovered_abandoned_handle_count = r.recovered_abandoned_handle_count;
  files = r.files;
  recovered_handle_count = 0;
}

abbrev pub with_tally : List LeaseSlot → Tally → Runtime → Runtime
with_tally ss t r = record r {
  open_handle_count = t.open_handle_count;
  recovered_abandoned_handle_count = t.recovered_abandoned_handle_count;
  slots = ss;
  files = t.files;
}

unfoldable pub recover_abandoned_runtime_owner_leases : ℕ → (ℕ → ℤ → ℤ) → Runtime → ℕ × Runtime
unfolding recover_abandoned_slots
recover_abandoned_runtime_owner_leases now reload r =
    let (ss, t) = recover_abandoned_slots r.file_lock_stale_ms now reload r.slots (tally_of r) in
    (t.recovered_handle_count, with_tally ss t r)

-- One round of claimOwnerLeaseSlot; `none` passes the slot over.
unfoldable pub claim_slot : ℕ → ℕ → ℤ → LeaseSlot → Option LeaseSlot
claim_slot stale now owner s =
    if not (eqb_ℤ s.owner_id (pos 0))
    then none
    else if (not (eqb_ℤ s.handle_count (pos 0)) || not (eqb_ℤ s.heartbeat_ms (pos 0)))
        && not (is_stale stale now s.heartbeat_ms)
    then none
    else some (record {
      owner_id = owner;
      handle_count = pos 0;
      heartbeat_ms = pos (get_memory_write_ahead_lock_clock_ms now);
    })

-- The find: this slot where it can be claimed, else what is found behind it.
unfoldable pub claim_first :
    LeaseSlot
    → List LeaseSlot
    → Option LeaseSlot
    → Option (ℕ × List LeaseSlot)
    → Option (ℕ × List LeaseSlot)
claim_first s ss (some claimed) behind = some (0, claimed ∷ ss)
claim_first s ss none none = none
claim_first s ss none (some (i, ss')) = some (suc i, s ∷ ss')

-- The index of the slot claimed, and the slots then.
unfoldable pub claim_owner_lease_slot : ℕ → ℕ → ℤ → List LeaseSlot → Option (ℕ × List LeaseSlot)
unfolding claim_slot claim_first
claim_owner_lease_slot stale now owner [] = none
claim_owner_lease_slot stale now owner (s ∷ ss) =
    claim_first s ss (claim_slot stale now owner s) (claim_owner_lease_slot stale now owner ss)
