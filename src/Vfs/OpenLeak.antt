-- ===== src/Vfs/OpenLeak.antt =====
-- A first open of the primary database whose last file is missing (src/MemoryWriteAheadVFS.ts).
use Prim.Native.String.{String}
use memory_write_ahead_vfs.Base.{
  ℕ, ◌+◌, ◌-◌, Option, none, some, ◌≡◌, refl, ap, ◌∙◌, arith, ok, err, ℤ, ◌==◌, false,
}
use memory_write_ahead_vfs.Lease.{Context, LocalLease}
use memory_write_ahead_vfs.Lease.Operations.{
  retain_memory_write_ahead_runtime_handle, ensure_local_runtime_lease, retain_ready, retain_lease,
  release_memory_write_ahead_runtime_handle,
}
use memory_write_ahead_vfs.AccessHandle.{close_handle}
use memory_write_ahead_vfs.Vfs.{Platform, shared_handle, file_missing, OpenFile, rejected}
use memory_write_ahead_vfs.Vfs.Files.{Vfs, get_memory_write_ahead_file}
use memory_write_ahead_vfs.Vfs.OpenRetry.{
  System, normalized, change_found, retry_left, first_open, second_open, third_open, retained,
  open_shared_handle, new_shared_handle, open_found, close_handle_of, give_up_open,
  get_write_ahead_name_from_db_name, retry_open_operation,
}

-- The lease after a handle more, and after a handle less.
abbrev pub one_more : LocalLease → LocalLease
one_more lease = record lease { handle_count = lease.handle_count + 1 }

retain-lease :
    (now : ℕ) (reload : ℕ → ℤ → ℤ) (owner : ℤ) (lease : LocalLease) (c : Context)
    → c.lease ≡ some lease
    → (let out = retain_memory_write_ahead_runtime_handle now reload owner c in
        (out.0 ≡ ok lease.owner_id) × (out.1.lease ≡ some (one_more lease)))
unfolding retain_memory_write_ahead_runtime_handle ensure_local_runtime_lease retain_ready
    retain_lease
retain-lease now reload owner lease c e = rw e (refl, refl)

release-lease :
    (now : ℕ) (lease : LocalLease) (c : Context)
    → c.lease ≡ some (one_more (one_more lease))
    → (release_memory_write_ahead_runtime_handle now c).lease ≡ some (one_more lease)
unfolding release_memory_write_ahead_runtime_handle
release-lease now lease c e =
    let less : lease.handle_count + 1 + 1 - 1 ≡ lease.handle_count + 1 = omega arith in
    let stays : (lease.handle_count + 1 == 0) ≡ false = ground arith in rw (e, less, stays) refl

module _ {W L : Type 0} (p : Platform W L) (sys : System) where
  retained-lease :
      (i : ℕ) (lease : LocalLease) (v : Vfs W L)
      → v.context.lease ≡ some lease
      → (c : Context) × (new_shared_handle sys i v
          ≡ (ok (shared_handle i false), record v { context = c }))
        × (c.lease ≡ some (one_more lease))
  unfolding new_shared_handle
  retained-lease i lease v e =
      let out =
        retain_memory_write_ahead_runtime_handle sys.now sys.reload sys.lease_owner_id v.context in
      let (returns, counts) =
        retain-lease sys.now sys.reload sys.lease_owner_id lease v.context e in
      (out.1, ap (λ r. retained i (r, out.1) v) returns, counts)

  open_shared_handle-lease :
      (path : String) (i : ℕ) (lease : LocalLease) (v : Vfs W L)
      → get_memory_write_ahead_file (normalized sys) path v ≡ some i
      → v.context.lease ≡ some lease
      → (c : Context) × (open_shared_handle sys path v
          ≡ (ok (shared_handle i false), record v { context = c }))
        × (c.lease ≡ some (one_more lease))
  unfolding open_shared_handle
  open_shared_handle-lease path i lease v found e =
      let (c, opens, counts) = retained-lease i lease v e in
      (c, ap (λ o. open_found sys o v) found ∙ opens, counts)

  change_found-context :
      (k : ℕ) (g : OpenFile W L → OpenFile W L) (o : Option (OpenFile W L)) (v : Vfs W L)
      → (change_found k g o v).context ≡ v.context
  change_found-context k g none v = refl
  change_found-context k g (some f) v = refl

  -- If the second write-ahead file is missing, the first open of the primary database gives back the handle
  -- of the database but not that of the first write-ahead file: the lease counts one handle more than
  -- before.
  pub retry_open-leaks :
      (k i j : ℕ) (name : String) (lease : LocalLease) (v : Vfs W L)
      → v.context.lease ≡ some lease
      → get_memory_write_ahead_file (normalized sys) name v ≡ some i
      → get_memory_write_ahead_file (normalized sys) (get_write_ahead_name_from_db_name name 0) v
        ≡ some j
      → get_memory_write_ahead_file (normalized sys) (get_write_ahead_name_from_db_name name 1) v
        ≡ none
      → (retry_open_operation p sys k name v).context.lease
        ≡ some (record lease { handle_count = lease.handle_count + 1 })
  unfolding retry_open_operation get_memory_write_ahead_file open_shared_handle give_up_open
      close_handle_of close_handle
  retry_open-leaks k i j name lease v e main first second =
      let (c1, opens1, counts1) = open_shared_handle-lease name i lease v main e in
      let v1 : Vfs W L = record v { context = c1 } in
      let (c2, opens2, counts2) =
        open_shared_handle-lease (get_write_ahead_name_from_db_name name 0) j (one_more lease) v1
          first counts1 in
      let v2 : Vfs W L = record v { context = c2 } in
      let missing : open_shared_handle sys (get_write_ahead_name_from_db_name name 1) v2
          ≡ (err file_missing, v2) =
        ap (λ o. open_found sys o v2) second in
      let h = shared_handle i false in
      let run : retry_open_operation p sys k name v
          ≡ third_open p sys k name h (shared_handle j false) (err file_missing, v2) =
        ap (first_open p sys k name) opens1
        ∙ (ap (second_open p sys k name h) opens2
            ∙ ap (third_open p sys k name h (shared_handle j false)) missing) in
      ap (λ u. u.context.lease) run
      ∙ (ap (λ c. c.lease)
            (change_found-context k (retry_left (rejected file_missing)) _
              (close_handle_of sys h v2).1)
          ∙ release-lease sys.now lease c2 counts2)
