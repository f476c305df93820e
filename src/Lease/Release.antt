-- ===== src/Lease/Release.antt =====
-- Releasing handles, and a lease that was recovered under its context
-- (src/memoryWriteAheadSharedRuntime.ts).
use memory_write_ahead_vfs.Base.{
  ◌⊎◌, inl, inr, ℕ, zero, suc, ◌+◌, ◌-◌, ◌^◌, ◌<◌, ◌≡◌, refl, sym, ap, ◌∙◌, true, false, none, some,
  ℤ, pos, pos_part, neg_part, eqb_ℤ, eqb_ℤ_refl, ltb_ℤ, leb_ℤ, ◌==◌, if◌then◌else◌, atomic_add,
  atomic_sub, atomic_add-pos, atomic_sub-pos, get_or, set, length, length-set, arith,
}
use mathlib.Core.Path.{subst}
use memory_write_ahead_vfs.Lease.{
  Context, LeaseSlot, no_lease, Runtime, LocalLease, slot_at, update_owner_lease_heartbeat,
  reduce_open_handle_count, clear_owner_lease_slot,
}
use memory_write_ahead_vfs.Lease.Operations.{
  retain_lease, retain_ready, retain_memory_write_ahead_runtime_handle, ensure_local_runtime_lease,
  release_slot_handle, release_slot, release_memory_write_ahead_runtime_handle,
}
use memory_write_ahead_vfs.Lease.Counts.{
  handles, total_handles, IsCounted, total_handles-set, handles-le,
}
use memory_write_ahead_vfs.Lease.Claims.{
  HoldsSlot, get_or-set, with_slot-IsCounted, update_owner_lease_heartbeat-keeps,
}

-- `r` is `r'` with one handle less.
abbrev pub Releases : Runtime → Runtime → Type 0
Releases r r' = IsCounted r' × (total_handles r'.slots + 1 ≡ total_handles r.slots)

reduce_one : (n : ℕ) → 0 < n → (reduce_open_handle_count (pos n) (pos 1)).1 ≡ pos (n - 1)
unfolding reduce_open_handle_count
reduce_one n h = ground arith

release_slot_handle-Releases :
    (lease : LocalLease) (k : ℕ) (r : Runtime)
    → IsCounted r
    → HoldsSlot (record lease { handle_count = suc k }) r
    → Releases r (release_slot_handle lease.slot_index r)
      × HoldsSlot (record lease { handle_count = k }) (release_slot_handle lease.slot_index r)
unfolding release_slot_handle
release_slot_handle-Releases lease k r c (l, z, e, h) =
    let i = lease.slot_index in
    let hs : handles (slot_at r i) ≡ suc k = ap pos_part h in
    let le = handles-le r.slots i in
    let s : LeaseSlot = record (slot_at r i) {
      handle_count = atomic_sub (slot_at r i).handle_count 1;
    } in
    let sub : s.handle_count ≡ pos k =
      ap (λ x. atomic_sub x 1) h
      ∙ (atomic_sub-pos (suc k) 1 (omega arith) (omega (arith, le, hs, c.2))
          ∙ ap (λ n. pos n) (omega arith)) in
    let hs' : handles s ≡ k = ap pos_part sub in
    let t = total_handles-set r.slots i s l in
    let g = get_or-set r.slots i s no_lease l in
    let go : ltb_ℤ (pos 0) (slot_at r i).handle_count ≡ true = rw h (ground arith) in
    let open' : (reduce_open_handle_count r.open_handle_count (pos 1)).1
        ≡ pos (total_handles r.slots - 1) =
      ap (λ x. (reduce_open_handle_count x (pos 1)).1) c.0
      ∙ reduce_one (total_handles r.slots) (omega (arith, le, hs)) in
    rw go (
      (
        with_slot-IsCounted i s r (reduce_open_handle_count r.open_handle_count (pos 1)).1 c l
            (ap neg_part sub, λ w. ground (arith, w, ap (λ x. eqb_ℤ x (pos 0)) e ∙ z))
            (open' ∙ ap (λ n. pos n) (omega (arith, hs, hs', le)))
            (omega (arith, hs, hs', le, c.2)),
        omega (arith, t, hs, hs', le),
      ),
      (
        omega (arith, length-set r.slots i s, l),
        z,
        ap (λ x. x.owner_id) g ∙ e,
        ap (λ x. x.handle_count) g ∙ sub,
      ),
    )

-- The lease of a context and its slot after a release: gone and cleared with the last handle, and otherwise
-- a lease of one handle less, whose slot is its own and counts so.
abbrev pub LetsGo : LocalLease → Context → Type 0
LetsGo lease c' =
    ((lease.handle_count ≡ 1)
      × (c'.lease ≡ none)
      × (slot_at c'.runtime lease.slot_index ≡ no_lease))
    ⊎ ((1 < lease.handle_count)
        × (c'.lease ≡ some (record lease { handle_count = lease.handle_count - 1 }))
        × HoldsSlot (record lease { handle_count = lease.handle_count - 1 }) c'.runtime)

-- The slot of a lease that has `k` handles left.
abbrev Keeps : LocalLease → ℕ → Runtime → Type 0
Keeps lease zero r = slot_at r lease.slot_index ≡ no_lease
Keeps lease (suc k) r = HoldsSlot (record lease { handle_count = suc k }) r

release_slot-Releases :
    (now : ℕ) (lease : LocalLease) (k : ℕ) (r : Runtime)
    → IsCounted r
    → HoldsSlot (record lease { handle_count = suc k }) r
    → Releases r (release_slot now (record lease { handle_count = k }) r)
      × Keeps lease k (release_slot now (record lease { handle_count = k }) r)
unfolding release_slot clear_owner_lease_slot
release_slot-Releases now lease zero r c (l, z, e, h) =
    let i = lease.slot_index in
    let ((c', t'), (l', z', e', h')) = release_slot_handle-Releases lease zero r c (l, z, e, h) in
    let own : eqb_ℤ (slot_at r i).owner_id lease.owner_id ≡ true =
      rw e (eqb_ℤ_refl lease.owner_id) in
    let low : leb_ℤ (slot_at r i).handle_count (pos 1) ≡ true = rw h (ground arith) in
    let t = total_handles-set (release_slot_handle i r).slots i no_lease l' in
    let hz : handles (slot_at (release_slot_handle i r) i) ≡ 0 = ap pos_part h' in
    rw (own, low)
      (
        (
          with_slot-IsCounted i no_lease (release_slot_handle i r) _ c' l' (refl, λ w. refl)
              (c'.0 ∙ ap (λ n. pos n) (omega (arith, hz))) (omega (arith, c'.2)),
          omega (arith, t, t', hz),
        ),
        get_or-set (release_slot_handle i r).slots i no_lease no_lease l',
      )
release_slot-Releases now lease (suc k) r c (l, z, e, h) =
    let i = lease.slot_index in
    let ((c', t'), (l', z', e', h')) =
      release_slot_handle-Releases lease (suc k) r c (l, z, e, h) in
    let own : eqb_ℤ (slot_at r i).owner_id lease.owner_id ≡ true =
      rw e (eqb_ℤ_refl lease.owner_id) in
    let low : leb_ℤ (slot_at r i).handle_count (pos 1) ≡ false = rw h (ground arith) in
    let (c'', h'', t'') =
      update_owner_lease_heartbeat-keeps now (record lease { handle_count = suc k })
        (release_slot_handle i r) c' (l', z', e', h') in
    rw (own, low) ((c'', omega (arith, t', t'')), h'')

released-LetsGo :
    (now : ℕ) (lease : LocalLease) (k : ℕ) (r : Runtime)
    → lease.handle_count ≡ suc k
    → IsCounted r
    → HoldsSlot lease r
    → (let c' =
          release_memory_write_ahead_runtime_handle now
            (record { lease = some lease; runtime = r }) in
        Releases r c'.runtime × LetsGo lease c')
unfolding release_memory_write_ahead_runtime_handle
released-LetsGo now lease zero r f c (l, z, e, h) =
    let less : lease.handle_count - 1 ≡ 0 = omega (arith, f) in
    let (releases, cleared) =
      release_slot-Releases now lease zero r c (l, z, e, h ∙ ap (λ n. pos n) f) in
    rw less (releases, inl (f, refl, cleared))
released-LetsGo now lease (suc k) r f c (l, z, e, h) =
    let less : lease.handle_count - 1 ≡ suc k = omega (arith, f) in
    let nz : (suc k == 0) ≡ false = ground arith in
    let (releases, holds) =
      release_slot-Releases now lease (suc k) r c (l, z, e, h ∙ ap (λ n. pos n) f) in
    subst
      (λ m.
        Releases r (release_slot now (record lease { handle_count = m }) r)
        × (((lease.handle_count ≡ 1)
              × ((if m == 0 then none else some (record lease { handle_count = m })) ≡ none)
              × (slot_at (release_slot now (record lease { handle_count = m }) r) lease.slot_index
                  ≡ no_lease))
            ⊎ ((1 < lease.handle_count)
                × ((if m == 0 then none else some (record lease { handle_count = m }))
                    ≡ some (record lease { handle_count = m }))
                × HoldsSlot (record lease { handle_count = m })
                    (release_slot now (record lease { handle_count = m }) r))))
      (sym less) (releases, inr (omega (arith, f), rw nz refl, holds))

-- releaseMemoryWriteAheadRuntimeHandle of a context with open handles whose lease's slot is still its
-- own gives one handle back: the open handle count drops by one and stays the sum of the slots'
-- counts. With its last handle the lease goes and its slot is cleared; otherwise the lease stays, with one
-- handle less, and its slot is its own and counts so.
pub release-Releases :
    (now : ℕ) (lease : LocalLease) (r : Runtime)
    → IsCounted r
    → HoldsSlot lease r
    → 0 < lease.handle_count
    → (let c' =
          release_memory_write_ahead_runtime_handle now
            (record { lease = some lease; runtime = r }) in
        Releases r c'.runtime × LetsGo lease c')
release-Releases now lease r c (l, z, e, h) b =
    let k = lease.handle_count - 1 in
    let f : lease.handle_count ≡ suc k = omega (arith, b) in
    released-LetsGo now lease k r f c (l, z, e, h)

-- A context whose lease was recovered meanwhile, so that its slot is no longer its own, leaks a handle
-- each time that it opens and closes one: the open handle count is one higher after it.
pub retain-release-leaks :
    (now later : ℕ) (reload : ℕ → ℤ → ℤ) (owner : ℤ) (lease : LocalLease) (r : Runtime) (n : ℕ)
    → lease.slot_index < length r.slots
    → eqb_ℤ (slot_at r lease.slot_index).owner_id lease.owner_id ≡ false
    → r.open_handle_count ≡ pos n
    → n + 1 < 2 ^ 31
    → (let opened =
          retain_memory_write_ahead_runtime_handle now reload owner
            (record { lease = some lease; runtime = r }) in
        (release_memory_write_ahead_runtime_handle later opened.1).runtime.open_handle_count
        ≡ pos (n + 1))
unfolding retain_memory_write_ahead_runtime_handle ensure_local_runtime_lease retain_ready
    retain_lease update_owner_lease_heartbeat release_memory_write_ahead_runtime_handle release_slot
retain-release-leaks now later reload owner lease r n l d o b =
    let i = lease.slot_index in
    let s : LeaseSlot = record (slot_at r i) {
      handle_count = atomic_add (slot_at r i).handle_count 1;
    } in
    let g = get_or-set r.slots i s no_lease l in
    let d' : eqb_ℤ (get_or (set r.slots i s) i no_lease).owner_id lease.owner_id ≡ false =
      ap (λ x. eqb_ℤ x.owner_id lease.owner_id) g ∙ d in
    rw (d', d') (ap (λ x. atomic_add x 1) o ∙ atomic_add-pos n 1 (omega (arith, b)))
