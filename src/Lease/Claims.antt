-- ===== src/Lease/Claims.antt =====
-- The slot of a lease, and the claim of a slot (src/memoryWriteAheadSharedRuntime.ts).
use memory_write_ahead_vfs.Base.{
  ℕ, zero, suc, ◌+◌, ◌-◌, ◌^◌, ◌<◌, ◌≡◌, refl, sym, ap, ◌∙◌, true, false, ◌&&◌, not, Option, none,
  some, List, [], ◌∷◌, ℤ, pos, pos_part, neg_part, eqb_ℤ, eqb_ℤ-eq, leb, atomic_add, atomic_add-pos,
  get_or, set, length, length-set, arith, inl, inr, Bool-cases,
}
use memory_write_ahead_vfs.Clock.{get_memory_write_ahead_lock_clock_ms}
use memory_write_ahead_vfs.Lease.{
  LeaseSlot, no_lease, Runtime, LocalLease, slot_at, with_slot, update_owner_lease_heartbeat,
  claim_first, claim_slot, claim_owner_lease_slot,
}
use memory_write_ahead_vfs.Lease.Operations.{retain_lease}
use memory_write_ahead_vfs.Lease.Counts.{
  handles, total_handles, IsSettled, AreSettled, IsCounted, total_handles-set, set-AreSettled,
  get_or-IsSettled, handles-le,
}

-- The lease's slot is its own, and counts its handles.
abbrev pub HoldsSlot : LocalLease → Runtime → Type 0
HoldsSlot lease r =
    (lease.slot_index < length r.slots)
    × (eqb_ℤ lease.owner_id (pos 0) ≡ false)
    × ((slot_at r lease.slot_index).owner_id ≡ lease.owner_id)
    × ((slot_at r lease.slot_index).handle_count ≡ pos lease.handle_count)

abbrev pub IsAttached : Option LocalLease → Runtime → Type 0
IsAttached none r = Unit
IsAttached (some lease) r = HoldsSlot lease r

pub get_or-set :
    {A : Type 0} (xs : List A) (i : ℕ) (v d : A) → i < length xs → get_or (set xs i v) i d ≡ v
get_or-set [] i v d h = ground arith
get_or-set (x ∷ xs) zero v d h = refl
get_or-set (x ∷ xs) (suc i) v d h = get_or-set xs i v d (omega (arith, h))

-- A slot is replaced, and the open handle count follows it.
pub with_slot-IsCounted :
    (i : ℕ) (s : LeaseSlot) (r : Runtime) (open_handle_count : ℤ)
    → IsCounted r
    → i < length r.slots
    → IsSettled s
    → open_handle_count ≡ pos ((total_handles r.slots + handles s) - handles (slot_at r i))
    → (total_handles r.slots + handles s) - handles (slot_at r i) < 2 ^ 31
    → IsCounted (with_slot i s (record r { open_handle_count = open_handle_count }))
with_slot-IsCounted i s r n (o, k, b) l h e b' =
    let t = total_handles-set r.slots i s l in
    let f : total_handles (set r.slots i s)
        ≡ (total_handles r.slots + handles s) - handles (slot_at r i) =
      omega (arith, t) in
    (e ∙ ap (λ n. pos n) (sym f), set-AreSettled r.slots i s k h, omega (arith, f, b'))

pub update_owner_lease_heartbeat-keeps :
    (now : ℕ) (lease : LocalLease) (r : Runtime)
    → IsCounted r
    → HoldsSlot lease r
    → IsCounted (update_owner_lease_heartbeat now lease r)
      × HoldsSlot lease (update_owner_lease_heartbeat now lease r)
      × (total_handles (update_owner_lease_heartbeat now lease r).slots ≡ total_handles r.slots)
unfolding update_owner_lease_heartbeat
update_owner_lease_heartbeat-keeps now lease r c (l, z, e, h) =
    elim (Bool-cases (
      eqb_ℤ (slot_at r lease.slot_index).owner_id lease.owner_id
      && not (leb lease.handle_count 0))) [
        | inr a ↦ rw a (c, (l, z, e, h), refl)
        | inl a ↦
            let s : LeaseSlot = record (slot_at r lease.slot_index) {
              heartbeat_ms = pos (get_memory_write_ahead_lock_clock_ms now);
            } in
            let t = total_handles-set r.slots lease.slot_index s l in
            let g = get_or-set r.slots lease.slot_index s no_lease l in
            let le = handles-le r.slots lease.slot_index in
            rw a (
              with_slot-IsCounted lease.slot_index s r r.open_handle_count c l
                  (get_or-IsSettled r.slots lease.slot_index c.1)
                  (c.0 ∙ ap (λ n. pos n) (omega (arith, le))) (omega (arith, le, c.2)),
              (
                omega (arith, length-set r.slots lease.slot_index s, l),
                z,
                ap (λ x. x.owner_id) g ∙ e,
                ap (λ x. x.handle_count) g ∙ h,
              ),
              omega (arith, t),
            )
      ]

pub retain_lease-keeps :
    (now : ℕ) (lease : LocalLease) (r : Runtime)
    → IsCounted r
    → HoldsSlot lease r
    → total_handles r.slots + 1 < 2 ^ 31
    → (let (lease', r') = retain_lease now lease r in
        IsCounted r'
        × HoldsSlot lease' r'
        × (total_handles r'.slots ≡ total_handles r.slots + 1)
        × (lease'.owner_id ≡ lease.owner_id))
unfolding retain_lease
retain_lease-keeps now lease r c (l, z, e, h) b =
    let i = lease.slot_index in
    let s : LeaseSlot = record (slot_at r i) {
      handle_count = atomic_add (slot_at r i).handle_count 1;
    } in
    let t = total_handles-set r.slots i s l in
    let g = get_or-set r.slots i s no_lease l in
    let le = handles-le r.slots i in
    let hs : handles (slot_at r i) ≡ lease.handle_count = ap pos_part h in
    let add : s.handle_count ≡ pos (lease.handle_count + 1) =
      ap (λ x. atomic_add x 1) h ∙ atomic_add-pos lease.handle_count 1 (omega (arith, le, hs, b)) in
    let hs' : handles s ≡ lease.handle_count + 1 = ap pos_part add in
    let open' : atomic_add r.open_handle_count 1 ≡ pos (total_handles r.slots + 1) =
      ap (λ x. atomic_add x 1) c.0 ∙ atomic_add-pos (total_handles r.slots) 1 (omega (arith, b)) in
    let c' =
      with_slot-IsCounted i s r (atomic_add r.open_handle_count 1) c l
        (ap neg_part add, λ w. ground (arith, w, ap (λ x. eqb_ℤ x (pos 0)) e ∙ z))
        (open' ∙ ap (λ n. pos n) (omega (arith, hs, hs', le))) (omega (arith, hs, hs', le, b)) in
    let (k, m, n) =
      update_owner_lease_heartbeat-keeps now
        (record lease { handle_count = lease.handle_count + 1 })
        (with_slot i s (record r { open_handle_count = atomic_add r.open_handle_count 1 })) c'
        (
          omega (arith, length-set r.slots i s, l),
          z,
          ap (λ x. x.owner_id) g ∙ e,
          ap (λ x. x.handle_count) g ∙ add,
        ) in
    (k, m, omega (arith, n, t, hs, hs'), refl)

claim_slot-claims :
    (stale now : ℕ) (owner : ℤ) (s s' : LeaseSlot)
    → claim_slot stale now owner s ≡ some s'
    → (eqb_ℤ s.owner_id (pos 0) ≡ true) × (s'.owner_id ≡ owner) × (s'.handle_count ≡ pos 0)
unfolding claim_slot
claim_slot-claims stale now owner s s' e = ground arith

-- The slot at `i` is claimed, and no other is touched.
abbrev pub Claims : ℕ → List LeaseSlot → Option (ℕ × List LeaseSlot) → Type 0
Claims n ss none = Unit
Claims n ss (some (i, ss')) =
    AreSettled ss'
    × (total_handles ss' ≡ total_handles ss)
    × (i < length ss')
    × (length ss' ≡ length ss)
    × ((get_or ss' i no_lease).owner_id ≡ pos (suc n))
    × ((get_or ss' i no_lease).handle_count ≡ pos 0)
    × ((get_or ss i no_lease).owner_id ≡ pos 0)

claim_first-Claims :
    (stale now n : ℕ) (s : LeaseSlot) (ss : List LeaseSlot) (here : Option LeaseSlot)
    (behind : Option (ℕ × List LeaseSlot))
    → claim_slot stale now (pos (suc n)) s ≡ here
    → AreSettled (s ∷ ss)
    → Claims n ss behind
    → Claims n (s ∷ ss) (claim_first s ss here behind)
unfolding claim_first
claim_first-Claims stale now n s ss (some s') behind e ((_, z), k) c =
    let (o, o', h') = claim_slot-claims stale now (pos (suc n)) s s' e in
    (
      ((ap neg_part h', λ w. ap pos_part h'), k),
      omega (arith, ap pos_part h', z o),
      ground arith,
      refl,
      o',
      h',
      eqb_ℤ-eq _ _ o,
    )
claim_first-Claims stale now n s ss none none e k c = tt
claim_first-Claims stale now n s ss none (some (i, ss')) e (ks, _) (k, t, l, m, o, h, z) =
    ((ks, k), omega (arith, t), omega (arith, l), omega (arith, m), o, h, z)

pub claim_owner_lease_slot-Claims :
    (stale now n : ℕ) (ss : List LeaseSlot)
    → AreSettled ss
    → Claims n ss (claim_owner_lease_slot stale now (pos (suc n)) ss)
unfolding claim_owner_lease_slot
claim_owner_lease_slot-Claims stale now n [] k = tt
claim_owner_lease_slot-Claims stale now n (s ∷ ss) k =
    claim_first-Claims stale now n s ss _ _ refl k
      (claim_owner_lease_slot-Claims stale now n ss k.1)
