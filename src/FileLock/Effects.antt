-- ===== src/FileLock/Effects.antt =====
-- What an access does to the lock word, and who owns it (src/MemoryWriteAheadVFS.ts).
use memory_write_ahead_vfs.Base.{
  ℕ, suc, ◌+◌, ◌<◌, Bool, true, false, Option, none, some, ℤ, pos, eqb_ℤ, eqb_ℤ-eq, pos_part,
  neg_part, ◌==◌, ◌≡◌, ◌≢◌, sym, ◌↔◌, refl, arith, inl, inr, Bool-cases,
}
use mathlib.Core.Path.{subst}
use memory_write_ahead_vfs.SharedFile.{LockWords}
use memory_write_ahead_vfs.Clock.{
  get_memory_write_ahead_lock_clock_ms, get_memory_write_ahead_lock_age_ms,
}
use memory_write_ahead_vfs.FileLock.{
  Pc, idle, trying, stamping, claiming, signing, holding, refreshing, refreshing_owner,
  refreshing_beat, releasing, recovering, judging, seizing, rechecking, restoring, finishing,
  counting, looking, waiting, Choice, judge, access, is_critical, next_robbed, owner_word,
}

abbrev magnitude : ℤ → ℕ
magnitude l = pos_part l + neg_part l

-- What a thread knows of the values that it has loaded.
abbrev pub Knows : Pc → Type 0
Knows (judging seen) = 0 < magnitude seen
Knows (seizing seen beat) = 0 < pos_part seen
Knows (rechecking seen beat) = 0 < pos_part seen
Knows (restoring seen) = 0 < pos_part seen
Knows (finishing claim) = 0 < neg_part claim
Knows other = Unit

judge-Knows :
    (stale : ℕ) (seen beat : ℤ) (age : Option ℕ)
    → 0 < magnitude seen
    → Knows (judge stale seen beat age)
unfolding judge
judge-Knows stale seen beat none h = ground arith
judge-Knows stale seen beat (some a) h = ground arith

pub access-Knows :
    (owner stale : ℕ) (c : Choice) (p : Pc) (w : LockWords)
    → Knows p
    → Knows (access owner stale c p w).0
unfolding access
access-Knows owner stale c (judging seen) w k = judge-Knows stale seen _ _ k
access-Knows owner stale c p w k = ground arith

judge-calm :
    (stale : ℕ) (seen beat : ℤ) (age : Option ℕ) → is_critical (judge stale seen beat age) ≡ false
unfolding judge
judge-calm stale seen beat none = ground arith
judge-calm stale seen beat (some a) = ground arith

-- How an access changes the lock word: not, up to its sign, but for three.
pub data Effect (owner : ℕ) : Pc → ℤ → Pc → ℤ → Type 0 where
  kept :
      {p p' : Pc} {l l' : ℤ}
      → magnitude l' ≡ magnitude l
      → (is_critical p' ≡ true → is_critical p ≡ true)
      → ((owner' : ℕ → ℕ) (i : ℕ) (robbed : ℕ → Bool) (j : ℕ)
          → next_robbed owner' i p l robbed j ≡ robbed j)
      → Effect owner p l p' l'
  taken : {l l' : ℤ} → l ≡ pos 0 → l' ≡ owner_word owner → Effect owner claiming l signing l'
  freed : {l l' : ℤ} → l ≡ owner_word owner → l' ≡ pos 0 → Effect owner releasing l idle l'
  recovered :
      {l claim l' : ℤ}
      → l ≡ claim
      → 0 < neg_part claim
      → l' ≡ pos 0
      → Effect owner (finishing claim) l counting l'

pub access-Effect :
    (owner stale : ℕ) (c : Choice) (p : Pc) (w : LockWords)
    → Knows p
    → Effect owner p w.lock (access owner stale c p w).0 (access owner stale c p w).1.lock
unfolding access next_robbed
access-Effect owner stale c claiming w k = elim (Bool-cases (eqb_ℤ w.lock (pos 0))) [
  | inl e ↦ rw e (taken (eqb_ℤ-eq _ _ e) refl)
  | inr e ↦ rw e (kept refl (ground arith) (ground arith))
]
access-Effect owner stale c releasing w k = elim (Bool-cases (eqb_ℤ w.lock (owner_word owner))) [
  | inl e ↦ rw e (freed (eqb_ℤ-eq _ _ e) refl)
  | inr e ↦ rw e (kept refl (ground arith) (ground arith))
]
access-Effect owner stale c (finishing claim) w k = elim (Bool-cases (eqb_ℤ w.lock claim)) [
  | inl e ↦ rw e (recovered (eqb_ℤ-eq _ _ e) k refl)
  | inr e ↦ rw e (kept refl (ground arith) (ground arith))
]
access-Effect owner stale c idle w k = kept refl (ground arith) (ground arith)
access-Effect owner stale c trying w k = kept refl (ground arith) (ground arith)
access-Effect owner stale c stamping w k = kept refl (ground arith) (ground arith)
access-Effect owner stale c signing w k = kept refl (ground arith) (ground arith)
access-Effect owner stale c holding w k = kept refl (ground arith) (ground arith)
access-Effect owner stale c refreshing w k = kept refl (ground arith) (ground arith)
access-Effect owner stale c refreshing_owner w k = kept refl (ground arith) (ground arith)
access-Effect owner stale c refreshing_beat w k = kept refl (ground arith) (ground arith)
access-Effect owner stale c recovering w k = kept refl (ground arith) (ground arith)
access-Effect owner stale c (judging seen) w k =
    kept refl
      (ground (
        arith,
        judge-calm stale seen w.lock_heartbeat_ms (
            get_memory_write_ahead_lock_age_ms w.lock_heartbeat_ms
              (get_memory_write_ahead_lock_clock_ms c.now)),
      ))
      (ground arith)
access-Effect owner stale c (seizing seen beat) w k =
    kept (ground arith) (ground arith) (ground arith)
access-Effect owner stale c (rechecking seen beat) w k = kept refl (ground arith) (ground arith)
access-Effect owner stale c (restoring seen) w k = kept (ground arith) (ground arith) (ground arith)
access-Effect owner stale c counting w k = kept refl (ground arith) (ground arith)
access-Effect owner stale c looking w k = kept refl (ground arith) (ground arith)
access-Effect owner stale c waiting w k = kept refl (ground arith) (ground arith)

-- A critical thread that no recovery has robbed has its id in the lock word, as an owner or in a
-- recovery claim; a robbed one has not.
abbrev pub Owns : ℕ → Pc → Bool → ℤ → Type 0
Owns id p robbed l = is_critical p ≡ true → (robbed ≡ false) ↔ (magnitude l ≡ suc id)

-- The thread that moves.
pub mover-Owns :
    (owner : ℕ → ℕ) (i : ℕ) (robbed : ℕ → Bool) {p p' : Pc} {l l' : ℤ}
    → Effect (owner i) p l p' l'
    → Owns (owner i) p (robbed i) l
    → Owns (owner i) p' (next_robbed owner i p l robbed i) l'
unfolding next_robbed
mover-Owns owner i robbed {l' = l'} (kept m c r) own = λ h.
    subst (λ r'. (r' ≡ false) ↔ (magnitude l' ≡ suc (owner i))) (sym (r owner i robbed i))
      (ground (arith, m, own (c h)))
mover-Owns owner i robbed (taken m m') own = ground (arith, m, m')
mover-Owns owner i robbed (freed m m') own = ground arith
mover-Owns owner i robbed (recovered m k m') own = ground arith

-- A thread that does not move.
pub other-Owns :
    (owner : ℕ → ℕ) (i : ℕ) (robbed : ℕ → Bool) {p p' : Pc} {l l' : ℤ}
    → Effect (owner i) p l p' l'
    → Owns (owner i) p (robbed i) l
    → (j : ℕ) → (j == i) ≡ false
    → owner i ≢ owner j
    → (q : Pc) → Owns (owner j) q (robbed j) l
    → Owns (owner j) q (next_robbed owner i p l robbed j) l'
unfolding next_robbed
other-Owns owner i robbed {l' = l'} (kept m c r) own j n d q inv = λ h.
    subst (λ r'. (r' ≡ false) ↔ (magnitude l' ≡ suc (owner j))) (sym (r owner i robbed j))
      (ground (arith, m, inv h))
other-Owns owner i robbed (taken m m') own j n d q inv = λ h. ground (arith, m, m')
other-Owns owner i robbed (freed m m') own j n d q inv = λ h. ground (arith, m, m', inv h, own refl)
other-Owns owner i robbed (recovered m k m') own j n d q inv = λ h. ground (arith, m, m', k, inv h)

pub robbed-access :
    (owner stale : ℕ) (c : Choice) (p : Pc) (w : LockWords)
    → is_critical p ≡ true
    → magnitude w.lock ≢ suc owner
    → (access owner stale c p w).1.lock ≡ w.lock
unfolding access
robbed-access owner stale c signing w h n = refl
robbed-access owner stale c holding w h n = refl
robbed-access owner stale c refreshing w h n = refl
robbed-access owner stale c refreshing_owner w h n = refl
robbed-access owner stale c refreshing_beat w h n = refl
robbed-access owner stale c releasing w h n = ground (arith, n)
robbed-access owner stale c p w h n = ground (arith)
