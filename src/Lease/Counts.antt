-- ===== src/Lease/Counts.antt =====
-- The handle counts of the owner leases of src/memoryWriteAheadSharedRuntime.ts.
use memory_write_ahead_vfs.Base.{
  ℕ, zero, suc, ◌+◌, ◌^◌, ◌≤◌, ◌<◌, ◌≡◌, refl, ap, ◌∙◌, true, List, [], ◌∷◌, ℤ, pos, pos_part,
  neg_part, eqb_ℤ, leb_ℤ, get_or, set, length, arith, inl, inr, Bool-cases,
}
use memory_write_ahead_vfs.Lease.{
  LeaseSlot, no_lease, Runtime, reduce_open_handle_count, Tally, recover_slot,
  recover_abandoned_slot, recover_abandoned_slots, tally_of, is_stale,
  recover_abandoned_runtime_owner_leases, clear_owner_lease_slot,
}
use memory_write_ahead_vfs.Lease.Operations.{
  recover_owner_slot, recover_terminated_memory_write_ahead_runtime_owner,
}

abbrev pub handles : LeaseSlot → ℕ
handles s = pos_part s.handle_count

abbrev pub total_handles : List LeaseSlot → ℕ
total_handles [] = 0
total_handles (s ∷ ss) = handles s + total_handles ss

-- A slot at rest: no negative count, and no handles without an owner.
abbrev pub IsSettled : LeaseSlot → Type 0
IsSettled s = (neg_part s.handle_count ≡ 0) × (eqb_ℤ s.owner_id (pos 0) ≡ true → handles s ≡ 0)

abbrev pub AreSettled : List LeaseSlot → Type 0
AreSettled [] = Unit
AreSettled (s ∷ ss) = IsSettled s × AreSettled ss

-- The open handle count is the sum of the slots' counts.
abbrev pub IsCounted : Runtime → Type 0
IsCounted r =
    (r.open_handle_count ≡ pos (total_handles r.slots))
    × AreSettled r.slots
    × (total_handles r.slots < 2 ^ 31)

pub total_handles-set :
    (ss : List LeaseSlot) (i : ℕ) (s : LeaseSlot)
    → i < length ss
    → total_handles (set ss i s) + handles (get_or ss i no_lease) ≡ total_handles ss + handles s
total_handles-set [] i s h = ground arith
total_handles-set (x ∷ ss) zero s h = omega arith
total_handles-set (x ∷ ss) (suc i) s h = ground (arith, total_handles-set ss i s)

pub set-AreSettled :
    (ss : List LeaseSlot) (i : ℕ) (s : LeaseSlot)
    → AreSettled ss
    → IsSettled s
    → AreSettled (set ss i s)
set-AreSettled [] i s h k = tt
set-AreSettled (x ∷ ss) zero s (hx, h) k = (k, h)
set-AreSettled (x ∷ ss) (suc i) s (hx, h) k = (hx, set-AreSettled ss i s h k)

pub get_or-IsSettled :
    (ss : List LeaseSlot) (i : ℕ) → AreSettled ss → IsSettled (get_or ss i no_lease)
get_or-IsSettled [] i h = (refl, λ e. refl)
get_or-IsSettled (x ∷ ss) zero (hx, h) = hx
get_or-IsSettled (x ∷ ss) (suc i) (hx, h) = get_or-IsSettled ss i h

pub handles-le : (ss : List LeaseSlot) (i : ℕ) → handles (get_or ss i no_lease) ≤ total_handles ss
handles-le [] i = omega arith
handles-le (x ∷ ss) zero = omega arith
handles-le (x ∷ ss) (suc i) = omega (arith, handles-le ss i)

recover_slot-counts :
    (owner : ℤ) (s : LeaseSlot) (t : Tally)
    → IsSettled s
    → (rest : ℕ) → t.open_handle_count ≡ pos (rest + handles s)
    → ((recover_slot owner s.handle_count t).open_handle_count ≡ pos rest)
      × ((recover_slot owner s.handle_count t).recovered_handle_count
          ≡ t.recovered_handle_count + handles s)
unfolding recover_slot reduce_open_handle_count
recover_slot-counts owner s t (n, o) rest e = rw e (ground arith)

recover_abandoned_slot-counts :
    (stale now : ℕ) (reloaded : ℤ) (s : LeaseSlot) (t : Tally)
    → IsSettled s
    → (rest : ℕ) → t.open_handle_count ≡ pos (rest + handles s)
    → ((recover_abandoned_slot stale now reloaded s t).1.open_handle_count
        ≡ pos (rest + handles (recover_abandoned_slot stale now reloaded s t).0))
      × ((recover_abandoned_slot stale now reloaded s t).1.recovered_handle_count
            + handles (recover_abandoned_slot stale now reloaded s t).0
          ≡ t.recovered_handle_count + handles s)
      × IsSettled (recover_abandoned_slot stale now reloaded s t).0
unfolding recover_abandoned_slot clear_owner_lease_slot
recover_abandoned_slot-counts stale now reloaded s t h rest e =
    elim (Bool-cases (leb_ℤ s.owner_id (pos 0))) [
      | inl a ↦ rw a (e, refl, h)
      | inr a ↦ elim (Bool-cases (is_stale stale now s.heartbeat_ms)) [
        | inr b ↦ rw (a, b) (e, refl, h)
        | inl b ↦ elim (Bool-cases (eqb_ℤ reloaded s.heartbeat_ms)) [
          | inr d ↦ rw (a, b, d) (e, refl, h)
          | inl d ↦
              let (x, y) = recover_slot-counts s.owner_id s t h rest e in
              rw (a, b, d) (x ∙ ap (λ n. pos n) (omega arith), omega (arith, y), (refl, λ z. refl))
        ]
      ]
    ]

-- What a recovery of slots keeps: the open handles besides those of the slots, and the sum of the
-- open and the recovered ones.
abbrev pub Recovers : List LeaseSlot → Tally → List LeaseSlot × Tally → Type 0
Recovers ss t out =
    (rest : ℕ)
    → t.open_handle_count ≡ pos (rest + total_handles ss)
    → (out.1.open_handle_count ≡ pos (rest + total_handles out.0))
      × (out.1.recovered_handle_count + total_handles out.0
          ≡ t.recovered_handle_count + total_handles ss)
      × AreSettled out.0
      × (length out.0 ≡ length ss)

Recovers-cons :
    (s s' : LeaseSlot) (ss ss' : List LeaseSlot) (t t' t'' : Tally)
    → ((rest : ℕ)
        → t.open_handle_count ≡ pos (rest + handles s)
        → (t'.open_handle_count ≡ pos (rest + handles s'))
          × (t'.recovered_handle_count + handles s' ≡ t.recovered_handle_count + handles s)
          × IsSettled s')
    → Recovers ss t' (ss', t'')
    → Recovers (s ∷ ss) t (s' ∷ ss', t'')
Recovers-cons s s' ss ss' t t' t'' one more rest e =
    let (o, c, k) = one (rest + total_handles ss) (e ∙ ap (λ n. pos n) (omega arith)) in
    let (o', c', k', l') = more (rest + handles s') (o ∙ ap (λ n. pos n) (omega arith)) in
    (o' ∙ ap (λ n. pos n) (omega arith), omega (arith, c, c'), (k, k'), omega (arith, l'))

recover_abandoned_slots-Recovers :
    (stale now : ℕ) (reload : ℕ → ℤ → ℤ) (ss : List LeaseSlot) (t : Tally)
    → AreSettled ss
    → Recovers ss t (recover_abandoned_slots stale now reload ss t)
unfolding recover_abandoned_slots
recover_abandoned_slots-Recovers stale now reload [] t h = λ rest e. (e, refl, tt, refl)
recover_abandoned_slots-Recovers stale now reload (s ∷ ss) t (hs, h) =
    let a = recover_abandoned_slot stale now (reload 0 s.heartbeat_ms) s t in
    let b = recover_abandoned_slots stale now (λ i. reload (suc i)) ss a.1 in
    Recovers-cons s a.0 ss b.0 t a.1 b.1
      (recover_abandoned_slot-counts stale now (reload 0 s.heartbeat_ms) s t hs)
      (recover_abandoned_slots-Recovers stale now (λ i. reload (suc i)) ss a.1 h)

recover_owner_slot-Recovers :
    (owner : ℤ) (ss : List LeaseSlot) (t : Tally)
    → AreSettled ss
    → Recovers ss t (recover_owner_slot owner ss t)
unfolding recover_owner_slot
recover_owner_slot-Recovers owner [] t h = λ rest e. (e, refl, tt, refl)
recover_owner_slot-Recovers owner (s ∷ ss) t (hs, h) = elim (Bool-cases (eqb_ℤ s.owner_id owner)) [
  | inl a ↦ rw a (λ rest e.
      let (x, y) =
        recover_slot-counts owner s t hs (rest + total_handles ss)
          (e ∙ ap (λ n. pos n) (omega arith)) in
      (x ∙ ap (λ n. pos n) (omega arith), omega (arith, y), ((refl, λ z. refl), h), refl))
  | inr a ↦ rw a (
      Recovers-cons s s ss (recover_owner_slot owner ss t).0 t t (recover_owner_slot owner ss t).1
        (λ rest e. (e, refl, hs)) (recover_owner_slot-Recovers owner ss t h))
]

-- recoverAbandonedRuntimeOwnerLeases, whatever its second loads of heartbeats find, keeps the open
-- handle count the sum of the slots' counts; what it returns is what the count has dropped by.
pub recover_abandoned_runtime_owner_leases-IsCounted :
    (now : ℕ) (reload : ℕ → ℤ → ℤ) (r : Runtime)
    → IsCounted r
    → (let (n, r') = recover_abandoned_runtime_owner_leases now reload r in
        IsCounted r'
        × (n + total_handles r'.slots ≡ total_handles r.slots)
        × (length r'.slots ≡ length r.slots))
unfolding recover_abandoned_runtime_owner_leases
recover_abandoned_runtime_owner_leases-IsCounted now reload r (o, k, b) =
    let (o', c', k', l') =
      recover_abandoned_slots-Recovers r.file_lock_stale_ms now reload r.slots (tally_of r) k 0
        (o ∙ ap (λ n. pos n) (omega arith)) in
    ((o' ∙ ap (λ n. pos n) (omega arith), k', omega (arith, c', b)), omega (arith, c'), l')

-- The same of recoverTerminatedMemoryWriteAheadRuntimeOwner.
pub recover_terminated-IsCounted :
    (owner : ℤ) (r : Runtime)
    → IsCounted r
    → (let (n, r') = recover_terminated_memory_write_ahead_runtime_owner owner r in
        IsCounted r'
        × (n + total_handles r'.slots ≡ total_handles r.slots)
        × (length r'.slots ≡ length r.slots))
unfolding recover_terminated_memory_write_ahead_runtime_owner
recover_terminated-IsCounted owner r (o, k, b) = elim (Bool-cases (leb_ℤ owner (pos 0))) [
  | inl e ↦ rw e ((o, k, b), omega arith, refl)
  | inr e ↦
      let (o', c', k', l') =
        recover_owner_slot-Recovers owner r.slots (tally_of r) k 0
          (o ∙ ap (λ n. pos n) (omega arith)) in
      rw e ((o' ∙ ap (λ n. pos n) (omega arith), k', omega (arith, c', b)), omega (arith, c'), l')
]
