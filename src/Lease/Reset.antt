-- ===== src/Lease/Reset.antt =====
-- The reset of a runtime, and the leases that a recovery leaves alone
-- (src/memoryWriteAheadSharedRuntime.ts).
use memory_write_ahead_vfs.Base.{
  length, ap, ℕ, zero, suc, ◌<◌, ◌≡◌, refl, false, none, List, [], ◌∷◌, ℤ, pos, leb_ℤ, ltb_ℤ,
  get_or, Result, ok, err, arith, inl, inr, Bool-cases,
}
use memory_write_ahead_vfs.SharedFile.{
  SharedFile, no_lock, no_transaction, record_memory_write_ahead_file_high_water, raise_peaks,
}
use memory_write_ahead_vfs.Lease.{
  LeaseSlot, no_lease, Runtime, Context, LeaseError, open_handles_remain, slot_at, is_stale, Tally,
  tally_of, recover_abandoned_slot, recover_abandoned_slots, recover_abandoned_runtime_owner_leases,
}
use memory_write_ahead_vfs.Lease.Operations.{
  reset_file, reset_files, clear_slots, reset_memory_write_ahead_runtime_state,
}
use memory_write_ahead_vfs.Lease.Counts.{
  total_handles, IsCounted, recover_abandoned_runtime_owner_leases-IsCounted,
}

recover_abandoned_slot-live :
    (stale now : ℕ) (reloaded : ℤ) (s : LeaseSlot) (t : Tally)
    → is_stale stale now s.heartbeat_ms ≡ false
    → (recover_abandoned_slot stale now reloaded s t).0 ≡ s
unfolding recover_abandoned_slot
recover_abandoned_slot-live stale now reloaded s t h =
    elim (Bool-cases (leb_ℤ s.owner_id (pos 0))) [ inl e ↦ rw e refl | inr e ↦ rw (e, h) refl ]

recover_abandoned_slots-live :
    (stale now : ℕ) (reload : ℕ → ℤ → ℤ) (ss : List LeaseSlot) (t : Tally) (i : ℕ)
    → is_stale stale now (get_or ss i no_lease).heartbeat_ms ≡ false
    → get_or (recover_abandoned_slots stale now reload ss t).0 i no_lease ≡ get_or ss i no_lease
unfolding recover_abandoned_slots
recover_abandoned_slots-live stale now reload [] t i h = refl
recover_abandoned_slots-live stale now reload (s ∷ ss) t zero h =
    recover_abandoned_slot-live stale now (reload 0 s.heartbeat_ms) s t h
recover_abandoned_slots-live stale now reload (s ∷ ss) t (suc i) h =
    recover_abandoned_slots-live stale now (λ k. reload (suc k)) ss _ i h

-- The recovery of abandoned leases leaves a slot as it is whose heartbeat is not older than the stale time
-- or missing, whatever becomes of the other slots.
pub recover_abandoned-live :
    (now : ℕ) (reload : ℕ → ℤ → ℤ) (r : Runtime) (i : ℕ)
    → is_stale r.file_lock_stale_ms now (slot_at r i).heartbeat_ms ≡ false
    → slot_at (recover_abandoned_runtime_owner_leases now reload r).1 i ≡ slot_at r i
unfolding recover_abandoned_runtime_owner_leases
recover_abandoned-live now reload r i h =
    recover_abandoned_slots-live r.file_lock_stale_ms now reload r.slots (tally_of r) i h

-- No bytes, no lock and no quarantine.
abbrev pub AreBlank : List SharedFile → Type 0
AreBlank [] = Unit
AreBlank (f ∷ fs) =
    ((f.meta.size ≡ 0) × (f.meta.words ≡ no_lock) × (f.meta.transaction ≡ no_transaction))
    × AreBlank fs

reset_files-AreBlank : (fs : List SharedFile) → AreBlank (reset_files fs)
unfolding reset_file record_memory_write_ahead_file_high_water raise_peaks
reset_files-AreBlank [] = tt
reset_files-AreBlank (f ∷ fs) = ((refl, refl, refl), reset_files-AreBlank fs)

length-reset_files : (fs : List SharedFile) → length (reset_files fs) ≡ length fs
length-reset_files [] = refl
length-reset_files (f ∷ fs) = ap suc (length-reset_files fs)

clear_slots-total : (ss : List LeaseSlot) → total_handles (clear_slots ss) ≡ 0
clear_slots-total [] = refl
clear_slots-total (s ∷ ss) = omega (arith, clear_slots-total ss)

-- What a reset comes to, `r` being the runtime after the recovery of abandoned leases.
abbrev pub Resets : Runtime → Context → Result LeaseError (Unit {0}) × Context → Type 0
Resets r c (ok u, c') =
    (total_handles r.slots ≡ 0)
    × (c'.lease ≡ none)
    × (c'.runtime.open_handle_count ≡ pos 0)
    × (total_handles c'.runtime.slots ≡ 0)
    × AreBlank c'.runtime.files
    × (length c'.runtime.files ≡ length r.files)
Resets r c (err e, c') =
    (0 < total_handles r.slots)
    × (e ≡ open_handles_remain)
    × (c'.lease ≡ c.lease)
    × (c'.runtime ≡ r)

pub reset-Resets :
    (now : ℕ) (reload : ℕ → ℤ → ℤ) (c : Context)
    → IsCounted c.runtime
    → Resets
        (recover_abandoned_runtime_owner_leases now reload c.runtime).1
        c
        (reset_memory_write_ahead_runtime_state now reload c)
unfolding reset_memory_write_ahead_runtime_state
reset-Resets now reload c k =
    let r = (recover_abandoned_runtime_owner_leases now reload c.runtime).1 in
    let k' = (recover_abandoned_runtime_owner_leases-IsCounted now reload c.runtime k).0 in
    elim (Bool-cases (ltb_ℤ (pos 0) r.open_handle_count)) [
      | inl e ↦ rw e (ground (arith, e, k'.0), refl, refl, refl)
      | inr e ↦ rw e (
        ground (arith, e, k'.0),
        refl,
        refl,
        clear_slots-total r.slots,
        reset_files-AreBlank r.files,
        length-reset_files r.files,
      )
    ]
