-- ===== src/Lease/Handles.antt =====
-- Retaining handles (src/memoryWriteAheadSharedRuntime.ts).
use memory_write_ahead_vfs.Base.{
  ℕ, suc, ◌+◌, ◌^◌, ◌≤◌, ◌<◌, ◌≡◌, refl, sym, ap, ◌∙◌, Option, none, some, List, ℤ, pos, Result, ok,
  err, arith,
}
use memory_write_ahead_vfs.Lease.{
  LeaseSlot, Runtime, LocalLease, Context, LeaseError, recover_abandoned_runtime_owner_leases,
}
use memory_write_ahead_vfs.Lease.Operations.{
  claim_again, claim_or_recover, new_local_runtime_lease, ensure_local_runtime_lease, retain_ready,
  retain_memory_write_ahead_runtime_handle, get_memory_write_ahead_runtime_owner_id,
}
use memory_write_ahead_vfs.Lease.Counts.{
  total_handles, IsCounted, recover_abandoned_runtime_owner_leases-IsCounted,
}
use memory_write_ahead_vfs.Lease.Claims.{
  HoldsSlot, IsAttached, retain_lease-keeps, Claims, claim_owner_lease_slot-Claims,
}

-- What a new lease is: a slot of its own with no handles.
abbrev Leases : ℕ → Runtime → Result LeaseError LocalLease × Runtime → Type 0
Leases n r (ok lease, r') =
    IsCounted r'
    × (total_handles r'.slots ≤ total_handles r.slots)
    × HoldsSlot lease r'
    × (lease.owner_id ≡ pos (suc n))
    × (lease.handle_count ≡ 0)
Leases n r (err e, r') = IsCounted r' × (total_handles r'.slots ≤ total_handles r.slots)

claim_again-Leases :
    (n : ℕ) (r r' : Runtime) (found : Option (ℕ × List LeaseSlot))
    → IsCounted r'
    → total_handles r'.slots ≤ total_handles r.slots
    → Claims n r'.slots found
    → Leases n r (claim_again (pos (suc n)) r' found)
unfolding claim_again
claim_again-Leases n r r' none k le c = (k, le)
claim_again-Leases n r r' (some (i, ss)) (o, k, b) le (k', t, l, m, w, h, z) = (
  (o ∙ ap (λ n. pos n) (sym t), k', omega (arith, t, b)),
  omega (arith, t, le),
  (l, ground arith, w, h),
  refl,
  refl,
)

claim_or_recover-Leases :
    (now : ℕ) (reload : ℕ → ℤ → ℤ) (n : ℕ) (r : Runtime) (found : Option (ℕ × List LeaseSlot))
    → IsCounted r
    → Claims n r.slots found
    → Leases n r (claim_or_recover now reload (pos (suc n)) r found)
unfolding claim_or_recover claim_again
claim_or_recover-Leases now reload n r (some found) k c =
    claim_again-Leases n r r (some found) k (omega arith) c
claim_or_recover-Leases now reload n r none k c =
    let r' = (recover_abandoned_runtime_owner_leases now reload r).1 in
    let (k', t, m) = recover_abandoned_runtime_owner_leases-IsCounted now reload r k in
    claim_again-Leases n r r' _ k' (omega (arith, t))
      (claim_owner_lease_slot-Claims r'.file_lock_stale_ms now n r'.slots k'.1)

new_local_runtime_lease-Leases :
    (now : ℕ) (reload : ℕ → ℤ → ℤ) (n : ℕ) (r : Runtime)
    → IsCounted r
    → Leases n r (new_local_runtime_lease now reload (pos (suc n)) r)
unfolding new_local_runtime_lease
new_local_runtime_lease-Leases now reload n r k =
    claim_or_recover-Leases now reload n r _ k
      (claim_owner_lease_slot-Claims r.file_lock_stale_ms now n r.slots k.1)

-- The handles that a context's lease counts.
abbrev pub lease_handles : Option LocalLease → ℕ
lease_handles none = 0
lease_handles (some lease) = lease.handle_count

-- What a retain leaves: on success the context has a lease with the id returned, whose slot counts
-- its handles, one more than before; on failure it has none.
abbrev pub Retains : Context → Result LeaseError ℤ × Context → Type 0
Retains c (ok owner, c') =
    IsCounted c'.runtime
    × IsAttached c'.lease c'.runtime
    × (get_memory_write_ahead_runtime_owner_id c' ≡ some owner)
    × (lease_handles c'.lease ≡ lease_handles c.lease + 1)
    × (total_handles c'.runtime.slots ≤ total_handles c.runtime.slots + 1)
Retains c (err e, c') =
    IsCounted c'.runtime
    × (c'.lease ≡ none)
    × (c.lease ≡ none)
    × (total_handles c'.runtime.slots ≤ total_handles c.runtime.slots)

retain_ready-Retains :
    (now n : ℕ) (c : Context) (out : Result LeaseError LocalLease × Runtime)
    → c.lease ≡ none
    → total_handles c.runtime.slots + 1 < 2 ^ 31
    → Leases n (c.runtime) out
    → Retains c (retain_ready now c out)
unfolding retain_ready get_memory_write_ahead_runtime_owner_id
retain_ready-Retains now n c (err e, r) z b (k, t) = (k, z, z, t)
retain_ready-Retains now n c (ok lease, r) z b (k, t, h, o, fresh) =
    let (k', h', t', o') = retain_lease-keeps now lease r k h (omega (arith, t, b)) in
    (k', h', refl, rw (z, fresh) refl, omega (arith, t, t'))

retain_any-Retains :
    (now : ℕ) (reload : ℕ → ℤ → ℤ) (n : ℕ) (held : Option LocalLease) (r : Runtime)
    → IsCounted r
    → IsAttached held r
    → total_handles r.slots + 1 < 2 ^ 31
    → Retains
        (record { lease = held; runtime = r })
        (retain_memory_write_ahead_runtime_handle now reload
          (pos (suc n))
          (record { lease = held; runtime = r }))
unfolding retain_memory_write_ahead_runtime_handle ensure_local_runtime_lease
retain_any-Retains now reload n none r k h b =
    retain_ready-Retains now n (record { lease = none; runtime = r }) _ refl b
      (new_local_runtime_lease-Leases now reload n r k)
retain_any-Retains now reload n (some lease) r k h b =
    unfold retain_ready get_memory_write_ahead_runtime_owner_id in
    let (k', h', t', o') = retain_lease-keeps now lease r k h b in
    (k', h', refl, refl, omega (arith, t'))

-- retainMemoryWriteAheadRuntimeHandle of a context that has no lease, or whose lease's slot is still
-- its own, below 2^31 handles: the open handle count stays the sum of the slots' counts, and
-- grows by one at most. If the call returns, the context has a lease with the owner id returned
-- whose slot counts its handles, one more than the lease had before; if it throws, the context had no lease and has none.
pub retain-Retains :
    (now : ℕ) (reload : ℕ → ℤ → ℤ) (n : ℕ) (c : Context)
    → IsCounted c.runtime
    → IsAttached c.lease c.runtime
    → total_handles c.runtime.slots + 1 < 2 ^ 31
    → Retains c (retain_memory_write_ahead_runtime_handle now reload (pos (suc n)) c)
retain-Retains now reload n c k h b = retain_any-Retains now reload n c.lease c.runtime k h b
