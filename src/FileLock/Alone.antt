-- ===== src/FileLock/Alone.antt =====
-- The file lock functions of src/MemoryWriteAheadVFS.ts as they run when no other thread touches
-- the slots meanwhile, and a release that meets a recovery claim.
use memory_write_ahead_vfs.Base.{
  ℕ, zero, suc, Bool, true, false, not, Option, none, some, ℤ, pos, negsuc, neg, eqb_ℤ, eqb_ℤ-eq,
  ltb_ℤ, leb, if◌then◌else◌, ◌≡◌, refl, ap, ◌∙◌, arith, inl, inr, Bool-cases, atomic_add,
  eqb_ℤ_refl,
}
use memory_write_ahead_vfs.SharedFile.{LockWords}
use memory_write_ahead_vfs.Clock.{
  get_memory_write_ahead_lock_clock_ms, get_memory_write_ahead_lock_age_ms,
}
use memory_write_ahead_vfs.FileLock.{
  Pc, recovering, judging, seizing, rechecking, finishing, counting, looking, Choice, judge, access,
}

-- The first `n` accesses of a thread on its own from `p`; `c k` is what access `k` sees.
unfoldable pub alone : ℕ → ℕ → ℕ → (ℕ → Choice) → Pc → LockWords → Pc × LockWords
unfolding access
alone zero owner stale c p w = (p, w)
alone (suc n) owner stale c p w =
    alone n owner stale (λ k. c (suc k)) (access owner stale (c 0) p w).0
      (access owner stale (c 0) p w).1

abbrev pub age_at : Choice → LockWords → Option ℕ
age_at c w =
    get_memory_write_ahead_lock_age_ms w.lock_heartbeat_ms
      (get_memory_write_ahead_lock_clock_ms c.now)

-- Whether a lock word counts as abandoned: a held one once its heartbeat is too old, a recovery
-- claim also if there is no heartbeat.
abbrev pub is_abandoned : ℕ → ℤ → Option ℕ → Bool
is_abandoned stale (pos zero) age = false
is_abandoned stale (pos (suc n)) none = false
is_abandoned stale (pos (suc n)) (some age) = not (leb age stale)
is_abandoned stale (negsuc n) none = true
is_abandoned stale (negsuc n) (some age) = not (leb age stale)

abbrev pub recovered_words : LockWords → LockWords
recovered_words w = record w {
  lock = pos 0;
  recovered_abandoned_lock_count = atomic_add w.recovered_abandoned_lock_count 1;
}

-- How many accesses the recovery makes.
abbrev pub recovery_length : ℕ → ℤ → Option ℕ → ℕ
recovery_length stale l age =
    if eqb_ℤ l (pos 0)
    then 1
    else if is_abandoned stale l age
    then if ltb_ℤ l (pos 0) then 4 else 6
    else 2

pub alone-then :
    (n owner stale : ℕ) (c : ℕ → Choice) (p : Pc) {p' : Pc} (w : LockWords) {w' : LockWords}
    → access owner stale (c 0) p w ≡ (p', w')
    → {r : Pc × LockWords} → alone n owner stale (λ k. c (suc k)) p' w' ≡ r
    → alone (suc n) owner stale c p w ≡ r
unfolding alone
alone-then n owner stale c p {p'} w {w'} e h =
    ap (λ x. alone n owner stale (λ k. c (suc k)) x.0 x.1) e ∙ h

alone-done :
    (owner stale : ℕ) (c : ℕ → Choice) (p : Pc) (w : LockWords) → alone 0 owner stale c p w ≡ (p, w)
unfolding alone
alone-done owner stale c p w = refl

module _ (owner stale : ℕ) (c : Choice) (w : LockWords) where
  access-recovering :
      (eqb_ℤ w.lock (pos 0)) ≡ false → access owner stale c recovering w ≡ (judging w.lock, w)
  unfolding access
  access-recovering e = rw e refl

  access-recovering_free :
      (eqb_ℤ w.lock (pos 0)) ≡ true → access owner stale c recovering w ≡ (looking, w)
  unfolding access
  access-recovering_free e = rw e refl

  access-judging :
      {a : Option ℕ}
      → age_at c w ≡ a
      → access owner stale c (judging w.lock) w ≡ (judge stale w.lock w.lock_heartbeat_ms a, w)
  unfolding access
  access-judging e = ap (λ x. (judge stale w.lock w.lock_heartbeat_ms x, w)) e

  access-seizing :
      access owner stale c (seizing w.lock w.lock_heartbeat_ms) w
      ≡ (rechecking w.lock w.lock_heartbeat_ms, record w { lock = neg w.lock })
  unfolding access
  access-seizing = rw (eqb_ℤ_refl w.lock) refl

  access-rechecking :
      access owner stale c (rechecking w.lock w.lock_heartbeat_ms) (record w { lock = neg w.lock })
      ≡ (finishing (neg w.lock), record w { lock = neg w.lock })
  unfolding access
  access-rechecking = rw (eqb_ℤ_refl w.lock_heartbeat_ms) refl

  access-finishing :
      (claim : ℤ)
      → access owner stale c (finishing claim) (record w { lock = claim })
        ≡ (counting, record w { lock = pos 0 })
  unfolding access
  access-finishing claim = rw (eqb_ℤ_refl claim) refl

  access-counting :
      access owner stale c counting (record w { lock = pos 0 }) ≡ (looking, recovered_words w)
  unfolding access
  access-counting = refl

  judge-abandoned :
      (l : ℤ) (a : Option ℕ)
      → eqb_ℤ l (pos 0) ≡ false
      → judge stale l w.lock_heartbeat_ms a ≡ (
          if is_abandoned stale l a
          then if ltb_ℤ l (pos 0) then finishing l else seizing l w.lock_heartbeat_ms
          else looking)
  unfolding judge
  judge-abandoned (pos zero) a e = cc
  judge-abandoned (pos (suc n)) none e = ground arith
  judge-abandoned (negsuc n) none e = ground arith
  judge-abandoned (pos (suc n)) (some a) e = ground arith
  judge-abandoned (negsuc n) (some a) e = ground arith

module _ (owner stale : ℕ) (w : LockWords) where
  abbrev claimed_words : LockWords
  claimed_words = record w { lock = neg w.lock }

  abbrev unlocked_words : LockWords
  unlocked_words = record w { lock = pos 0 }

  finish-alone :
      (claim : ℤ) (c : ℕ → Choice)
      → alone 2 owner stale c (finishing claim) (record w { lock = claim })
        ≡ (looking, recovered_words w)
  finish-alone claim c =
      alone-then 1 owner stale c (finishing claim) (record w { lock = claim })
        (access-finishing owner stale (c 0) w claim)
        (alone-then 0 owner stale (λ k. c (suc k)) counting unlocked_words
          (access-counting owner stale (c 1) w) (alone-done _ _ _ _ _))

  -- The recovery of a lock that is not free, once the decision is made.
  recover-judged :
      (c : ℕ → Choice) (a : Option ℕ)
      → age_at (c 1) w ≡ a
      → eqb_ℤ w.lock (pos 0) ≡ false
      → (p : Pc) → judge stale w.lock w.lock_heartbeat_ms a ≡ p
      → (n : ℕ) {r : Pc × LockWords} → alone n owner stale (λ k. c (suc (suc k))) p w ≡ r
      → alone (suc (suc n)) owner stale c recovering w ≡ r
  recover-judged c a f e p g n h =
      alone-then (suc n) owner stale c recovering w (access-recovering owner stale (c 0) w e) (
        alone-then n owner stale (λ k. c (suc k)) (judging w.lock) w
          (access-judging owner stale (c 1) w f ∙ ap (λ x. (x, w)) g) h)

  seize-alone :
      (c : ℕ → Choice)
      → alone 4 owner stale c (seizing w.lock w.lock_heartbeat_ms) w ≡ (looking, recovered_words w)
  seize-alone c =
      alone-then 3 owner stale c (seizing w.lock w.lock_heartbeat_ms) w
        (access-seizing owner stale (c 0) w)
        (alone-then 2 owner stale (λ k. c (suc k)) (rechecking w.lock w.lock_heartbeat_ms)
          claimed_words (access-rechecking owner stale (c 1) w)
          (finish-alone (neg w.lock) (λ k. c (suc (suc k)))))

-- Run without interference, recoverAbandonedMemoryWriteAheadFileLock unlocks and counts an abandoned
-- lock, and changes nothing where the lock is free, held with a heartbeat that is young enough,
-- or held with none.
pub recover-alone :
    (owner stale : ℕ) (c : ℕ → Choice) (w : LockWords)
    → alone (recovery_length stale w.lock (age_at (c 1) w)) owner stale c recovering w
      ≡ (looking, if is_abandoned stale w.lock (age_at (c 1) w) then recovered_words w else w)
recover-alone owner stale c w = elim (Bool-cases (eqb_ℤ w.lock (pos 0))) [
  | inl e ↦
      rw (e, free e)
        (alone-then 0 owner stale c recovering w (access-recovering_free owner stale (c 0) w e)
          (alone-done _ _ _ _ _))
  | inr e ↦ elim (Bool-cases (is_abandoned stale w.lock (age_at (c 1) w))) [
    | inr g ↦
        rw (e, g)
          (recover-judged owner stale w c _ refl e looking (judged e ∙ rw g refl) 0
            (alone-done _ _ _ _ _))
    | inl g ↦ elim (Bool-cases (ltb_ℤ w.lock (pos 0))) [
      | inl h ↦
          rw (e, g, h)
            (recover-judged owner stale w c _ refl e (finishing w.lock) (judged e ∙ rw (g, h) refl)
              2 (finish-alone owner stale w w.lock (λ k. c (suc (suc k)))))
      | inr h ↦
          rw (e, g, h)
            (recover-judged owner stale w c _ refl e (seizing w.lock w.lock_heartbeat_ms)
              (judged e ∙ rw (g, h) refl) 4 (seize-alone owner stale w (λ k. c (suc (suc k)))))
    ]
  ]
]
  where
    judged :
        eqb_ℤ w.lock (pos 0) ≡ false
        → judge stale w.lock w.lock_heartbeat_ms (age_at (c 1) w) ≡ (
            if is_abandoned stale w.lock (age_at (c 1) w)
            then if ltb_ℤ w.lock (pos 0)
              then finishing w.lock
              else seizing w.lock w.lock_heartbeat_ms
            else looking)
    judged e = judge-abandoned owner stale (c 1) w w.lock (age_at (c 1) w) e

    free : eqb_ℤ w.lock (pos 0) ≡ true → is_abandoned stale w.lock (age_at (c 1) w) ≡ false
    free e = rw (eqb_ℤ-eq w.lock (pos 0) e) refl
