-- ===== src/AttachedLock/Quarantine.antt =====
-- A context that terminates in a transaction of an attached database (src/memoryWriteAheadSharedRuntime.ts
-- and src/MemoryWriteAheadVFS.ts): its transaction locks are never passed on.
use memory_write_ahead_vfs.Base.{
  Bool, true, false, ◌||◌, List, [], ◌∷◌, ℤ, pos, eqb_ℤ, eqb_ℤ-eq, eqb_ℤ_refl, leb_ℤ, err, ◌≡◌, ◌≢◌,
  ◌⊎◌, sym, ◌∙◌, ap, inl, inr, Bool-cases,
}
use memory_write_ahead_vfs.SharedFile.{SharedFile}
use memory_write_ahead_vfs.Lease.{
  LeaseSlot, Runtime, Tally, quarantine_file, quarantine_transaction_locks_for_runtime_owner,
  recover_slot, tally_of,
}
use memory_write_ahead_vfs.Lease.Operations.{
  recover_owner_slot, recover_terminated_memory_write_ahead_runtime_owner,
}
use memory_write_ahead_vfs.AttachedLock.{
  Attached, AttachedFile, quarantined, try_lock_attached_database,
}
use memory_write_ahead_vfs.AttachedLock.Laws.{nobody, IsReady, try_lock-nobody}

-- Some slot has the owner id.
abbrev pub has_owner : ℤ → List LeaseSlot → Bool
has_owner owner [] = false
has_owner owner (s ∷ ss) = eqb_ℤ s.owner_id owner || has_owner owner ss

-- A file before and after the quarantine of an owner's transaction locks: marked as abandoned, and else
-- as it was, if the owner holds or claims its lock, and untouched otherwise.
pub data IsQuarantined (owner : ℤ) (f : SharedFile) : SharedFile → Type 0 where
  marked :
      f.meta.transaction.transaction_lock_runtime_owner ≡ owner
      → f.meta.transaction.transaction_lock ≢ pos 0
      → IsQuarantined owner f (record f {
        meta = record (f.meta) {
          transaction = record (f.meta.transaction) { abandoned_transaction = pos 1 };
        };
      })
  untouched :
      (f.meta.transaction.transaction_lock_runtime_owner ≢ owner)
        ⊎ (f.meta.transaction.transaction_lock ≡ pos 0)
      → IsQuarantined owner f f

pub data AreQuarantined (owner : ℤ) : List SharedFile → List SharedFile → Type 0 where
  no_files : AreQuarantined owner [] []
  and_file :
      {f f' : SharedFile} {fs fs' : List SharedFile}
      → IsQuarantined owner f f'
      → AreQuarantined owner fs fs'
      → AreQuarantined owner (f ∷ fs) (f' ∷ fs')

differs : (a b : ℤ) → eqb_ℤ a b ≡ false → a ≢ b
differs a b e same =
    let yes : eqb_ℤ a b ≡ true = ap (eqb_ℤ a) (sym same) ∙ eqb_ℤ_refl a in absurd cc

quarantine_file-IsQuarantined :
    (owner : ℤ) (f : SharedFile) → IsQuarantined owner f (quarantine_file owner f)
unfolding quarantine_file
quarantine_file-IsQuarantined owner f =
    let w = f.meta.transaction in
    elim (Bool-cases (eqb_ℤ w.transaction_lock_runtime_owner owner)) [
      | inr other ↦
          rw other (untouched (inl (differs w.transaction_lock_runtime_owner owner other)))
      | inl own ↦ elim (Bool-cases (eqb_ℤ w.transaction_lock (pos 0))) [
        | inl free ↦ rw (own, free) (untouched (inr (eqb_ℤ-eq w.transaction_lock (pos 0) free)))
        | inr held ↦
            rw (own, held)
              (marked (eqb_ℤ-eq w.transaction_lock_runtime_owner owner own)
                (differs w.transaction_lock (pos 0) held))
      ]
    ]

quarantine-AreQuarantined :
    (owner : ℤ) (fs : List SharedFile)
    → AreQuarantined owner fs (quarantine_transaction_locks_for_runtime_owner owner fs)
unfolding quarantine_transaction_locks_for_runtime_owner
quarantine-AreQuarantined owner [] = no_files
quarantine-AreQuarantined owner (f ∷ fs) =
    and_file (quarantine_file-IsQuarantined owner f) (quarantine-AreQuarantined owner fs)

recover_owner_slot-AreQuarantined :
    (owner : ℤ) (ss : List LeaseSlot) (t : Tally)
    → has_owner owner ss ≡ true
    → AreQuarantined owner t.files (recover_owner_slot owner ss t).1.files
unfolding recover_owner_slot recover_slot
recover_owner_slot-AreQuarantined owner [] t h = absurd cc
recover_owner_slot-AreQuarantined owner (s ∷ ss) t h = elim (Bool-cases (eqb_ℤ s.owner_id owner)) [
  | inl a ↦ rw a (quarantine-AreQuarantined owner t.files)
  | inr a ↦ rw a (recover_owner_slot-AreQuarantined owner ss t (rw a at h))
]

-- The recovery of a terminated owner that has a lease marks exactly the files whose transaction lock the
-- owner holds or claims as abandoned, changes nothing else of them, and leaves every other file as it is.
pub recover_terminated-AreQuarantined :
    (owner : ℤ) (r : Runtime)
    → leb_ℤ owner (pos 0) ≡ false
    → has_owner owner r.slots ≡ true
    → AreQuarantined owner r.files
        (recover_terminated_memory_write_ahead_runtime_owner owner r).1.files
unfolding recover_terminated_memory_write_ahead_runtime_owner
recover_terminated-AreQuarantined owner r p h =
    rw p (recover_owner_slot-AreQuarantined owner r.slots (tally_of r) h)

-- A file whose transaction lock the terminated owner held or claimed is locked by nobody after the
-- quarantine: every try of a file that is ready throws and changes nothing.
pub quarantine_file-blocks :
    (owner : ℤ) (shared : SharedFile) (f : AttachedFile)
    → eqb_ℤ shared.meta.transaction.transaction_lock_runtime_owner owner ≡ true
    → eqb_ℤ shared.meta.transaction.transaction_lock (pos 0) ≡ false
    → IsReady f
    → (let a : Attached = record {
      file = f;
      words = (quarantine_file owner shared).meta.transaction;
    } in
        try_lock_attached_database nobody a ≡ (err quarantined, a))
unfolding quarantine_file
quarantine_file-blocks owner shared f o l ready =
    rw (o, l)
      (try_lock-nobody f (record (shared.meta.transaction) { abandoned_transaction = pos 1 }) ready)
