-- ===== src/AccessHandle/Laws.antt =====
-- The writes and truncations of an access handle under the file lock (src/MemoryWriteAheadVFS.ts).
use memory_write_ahead_vfs.Base.{
  ℕ, ◌-◌, max, leb, ltb, get_or, ◌+◌, ◌≤◌, ◌≡◌, refl, ap, sym, ◌∙◌, ◌&&◌, List, length, pos, eqb_ℤ,
  if◌then◌else◌, ok, arith, Bool-cases, inl, inr,
}
use mathlib.Core.Path.{subst}
use memory_write_ahead_vfs.SharedFile.{LockWords, SharedFile}
use memory_write_ahead_vfs.SharedFile.Transfer.{
  write_memory_write_ahead_file, truncate_memory_write_ahead_file,
}
use memory_write_ahead_vfs.SharedFile.Records.{record_memory_write_ahead_file_lock_wait}
use memory_write_ahead_vfs.SharedFile.Invariant.{IsWellFormed, byte_at}
use memory_write_ahead_vfs.SharedFile.WriteLaws.{write_memory_write_ahead_file-Written}
use memory_write_ahead_vfs.SharedFile.LockKept.{
  KeepsLock, lock_of, write_memory_write_ahead_file-lock, truncate_memory_write_ahead_file-lock,
}
use memory_write_ahead_vfs.FileLock.{
  owner_word, holding, refreshing, releasing, idle, Choice, access,
}
use memory_write_ahead_vfs.FileLock.Alone.{alone}
use memory_write_ahead_vfs.AccessHandle.{
  Acquisition, refresh_memory_write_ahead_file_lock_heartbeat, release_memory_write_ahead_file_lock,
  enter, with_file_lock, write_handle, truncate_handle, all_of,
}

-- An acquisition that gets the lock.
abbrev pub Acquires : ℕ → (LockWords → Acquisition) → Type 0
Acquires owner acquire = (w : LockWords) → (acquire w).words.lock ≡ owner_word owner

refresh-KeepsLock :
    (owner now : ℕ) → KeepsLock (refresh_memory_write_ahead_file_lock_heartbeat owner now)
unfolding refresh_memory_write_ahead_file_lock_heartbeat
refresh-KeepsLock owner now w = ground arith

enter-lock :
    (owner : ℕ) (acquire : LockWords → Acquisition)
    → Acquires owner acquire
    → (f : SharedFile) → lock_of (enter acquire f) ≡ owner_word owner
unfolding enter record_memory_write_ahead_file_lock_wait
enter-lock owner acquire h f = ground (arith, h f.meta.words)

release-lock :
    (owner : ℕ) (w : LockWords)
    → w.lock ≡ owner_word owner
    → (release_memory_write_ahead_file_lock owner w).lock ≡ pos 0
unfolding release_memory_write_ahead_file_lock
release-lock owner w e = ground (arith, e)

-- A write of the handle leaves the file unlocked, whether it returns or throws.
pub write_handle-unlocks :
    (owner now : ℕ) (acquire : LockWords → Acquisition) (source : List ℕ) (offset : ℕ)
    (f : SharedFile)
    → Acquires owner acquire
    → lock_of (write_handle owner now acquire source offset f).1 ≡ pos 0
unfolding write_handle with_file_lock
write_handle-unlocks owner now acquire source offset f h =
    let p = refresh_memory_write_ahead_file_lock_heartbeat owner now in
    release-lock owner
      (write_memory_write_ahead_file p source offset (enter acquire f)).1.meta.words
      (write_memory_write_ahead_file-lock p (refresh-KeepsLock owner now) source offset
          (enter acquire f)
        ∙ enter-lock owner acquire h f)

-- A truncation of the handle leaves the file unlocked, whether it returns or throws.
pub truncate_handle-unlocks :
    (owner now : ℕ) (acquire : LockWords → Acquisition) (size : ℕ) (f : SharedFile)
    → Acquires owner acquire
    → lock_of (truncate_handle owner now acquire size f).1 ≡ pos 0
unfolding truncate_handle with_file_lock
truncate_handle-unlocks owner now acquire size f h =
    let p = refresh_memory_write_ahead_file_lock_heartbeat owner now in
    release-lock owner (truncate_memory_write_ahead_file p size (enter acquire f)).1.meta.words (
      truncate_memory_write_ahead_file-lock p (refresh-KeepsLock owner now) size (enter acquire f)
      ∙ enter-lock owner acquire h f)

-- What entering and leaving change is no part of the invariant.
abbrev SameShape : SharedFile → SharedFile → Type 0
SameShape f g =
    (g.max_capacity_bytes ≡ f.max_capacity_bytes)
    × (g.segment_capacity_bytes ≡ f.segment_capacity_bytes)
    × (g.segments ≡ f.segments)
    × (g.meta.size ≡ f.meta.size)
    × (g.meta.active_segment_count ≡ f.meta.active_segment_count)

SameShape-IsWellFormed : {f g : SharedFile} → SameShape f g → IsWellFormed f → IsWellFormed g
SameShape-IsWellFormed {f} {g} (m, c, ss, n, a) w = record {
  positive = rw c w.positive;
  bounded = rw m w.bounded;
  limits = λ k. rw (ss, c, m) (w.limits k);
  fits = λ k. rw ss (w.fits k);
  fixed_full = λ k s e h. w.fixed_full k s (rw ss at e) h;
  active = rw (a, ss) w.active;
  full = λ k h. rw (ss, c) (w.full k (rw a at h));
  sized = rw (n, a, c, ss) w.sized;
}

enter-SameShape :
    (acquire : LockWords → Acquisition) (f : SharedFile) → SameShape f (enter acquire f)
unfolding enter record_memory_write_ahead_file_lock_wait
enter-SameShape acquire f = elim (Bool-cases (leb (acquire f.meta.words).wait_count 0)) [
  | inl e ↦ rw e (refl, refl, refl, refl, refl)
  | inr e ↦ rw e (refl, refl, refl, refl, refl)
]

-- On a well-formed file, under an acquisition that gets the lock, a write that fits in the capacity returns
-- the source's length and leaves the file unlocked and well formed, with the source from `offset`
-- on, every other byte as it was, and the size raised to the end of the write.
pub write_handle-writes :
    (owner now : ℕ) (acquire : LockWords → Acquisition) (source : List ℕ) (offset : ℕ)
    {f : SharedFile}
    → Acquires owner acquire
    → IsWellFormed f
    → offset + length source ≤ f.max_capacity_bytes
    → (let out = write_handle owner now acquire source offset f in
        (out.0 ≡ ok (length source))
        × (lock_of out.1 ≡ pos 0)
        × IsWellFormed out.1
        × (out.1.meta.size ≡ max f.meta.size (offset + length source))
        × ((i : ℕ)
            → byte_at out.1 i ≡ (
                if leb offset i && ltb i (offset + length source)
                then get_or source (i - offset) 0
                else byte_at f i)))
unfolding write_handle with_file_lock
write_handle-writes owner now acquire source offset {f} h w le =
    let p = refresh_memory_write_ahead_file_lock_heartbeat owner now in
    let same = enter-SameShape acquire f in
    let we = SameShape-IsWellFormed same w in
    let (f', run, wf, written) =
      write_memory_write_ahead_file-Written p source offset we (omega (arith, le, same.0)) in
    let un : lock_of (write_handle owner now acquire source offset f).1 ≡ pos 0 =
      write_handle-unlocks owner now acquire source offset f h in
    (
      ap (λ t. all_of source t.0) run,
      un,
      SameShape-IsWellFormed (refl, refl, refl, refl, refl)
          (subst (λ t. IsWellFormed t.1) (sym run) wf),
      ap (λ t. t.1.meta.size) run
          ∙ (written.new_size ∙ ap (λ n. max n (offset + length source)) (same.3)),
      λ i.
          ap (λ t. byte_at t.1 i) run
          ∙ (written.new_bytes i
              ∙ ap
                  (λ x.
                    if leb offset i && ltb i (offset + length source)
                    then get_or source (i - offset) 0
                    else x)
                  (let b : byte_at (enter acquire f) i ≡ byte_at f i = rw (same.2, same.1) refl in
                    b)),
    )

-- The refresh and the release of the lock, each in one go, are what the thread's accesses amount to when
-- no other thread touches the slots between them.
pub refresh-release-alone :
    (owner stale : ℕ) (c : ℕ → Choice) (w : LockWords)
    → ((n : ℕ) × (alone n owner stale c refreshing w
          ≡ (holding, refresh_memory_write_ahead_file_lock_heartbeat owner (c 2).now w)))
      × (alone 1 owner stale c releasing w ≡ (idle, release_memory_write_ahead_file_lock owner w))
unfolding alone access refresh_memory_write_ahead_file_lock_heartbeat
    release_memory_write_ahead_file_lock
refresh-release-alone owner stale c w = (refreshed, refl)
  where
    refreshed :
        (n : ℕ) × (alone n owner stale c refreshing w
          ≡ (holding, refresh_memory_write_ahead_file_lock_heartbeat owner (c 2).now w))
    refreshed = elim (Bool-cases (eqb_ℤ w.lock (owner_word owner))) [
      | inr e ↦ (1, rw e refl)
      | inl e ↦ elim (Bool-cases (eqb_ℤ w.lock_owner (owner_word owner))) [
        | inr g ↦ (2, rw (e, g) refl)
        | inl g ↦ (3, rw (e, g) refl)
      ]
    ]
