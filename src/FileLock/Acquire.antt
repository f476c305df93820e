-- ===== src/FileLock/Acquire.antt =====
-- Acquiring the file lock without interference (src/MemoryWriteAheadVFS.ts).
use memory_write_ahead_vfs.Base.{
  ℕ, zero, suc, ◌+◌, true, false, Option, ℤ, pos, negsuc, eqb_ℤ, ◌≡◌, sym, refl, ap, ◌∙◌, arith,
}
use mathlib.Core.Path.{subst}
use memory_write_ahead_vfs.SharedFile.{LockWords}
use memory_write_ahead_vfs.Clock.{get_memory_write_ahead_lock_clock_ms}
use memory_write_ahead_vfs.FileLock.{
  Pc, trying, holding, recovering, looking, Choice, access, owner_word,
}
use memory_write_ahead_vfs.FileLock.Alone.{
  alone, age_at, is_abandoned, recovered_words, recovery_length, alone-then, recover-alone,
}

-- What the accesses see from access `m` on.
abbrev pub after : ℕ → (ℕ → Choice) → ℕ → Choice
after zero c = c
after (suc m) c = after m (λ k. c (suc k))

alone-append :
    (m n owner stale : ℕ) (c : ℕ → Choice) (p : Pc) (w : LockWords) {p' : Pc} {w' : LockWords}
    → alone m owner stale c p w ≡ (p', w')
    → {r : Pc × LockWords} → alone n owner stale (after m c) p' w' ≡ r
    → alone (m + n) owner stale c p w ≡ r
unfolding alone
alone-append zero n owner stale c p w e {r} h =
    let z : n ≡ 0 + n = omega arith in
    subst (λ k. alone k owner stale c p w ≡ r) z (ap (λ x. alone n owner stale c x.0 x.1) e ∙ h)
alone-append (suc m) n owner stale c p w e {r} h =
    let z : suc (m + n) ≡ suc m + n = omega arith in
    subst (λ k. alone k owner stale c p w ≡ r) z
      (alone-append m n owner stale (λ k. c (suc k)) _ _ e h)

-- The slots of a lock that the thread has just acquired.
abbrev pub held_words : ℕ → Choice → LockWords → LockWords
held_words owner c w = record w {
  lock = owner_word owner;
  lock_owner = owner_word owner;
  lock_heartbeat_ms = pos (get_memory_write_ahead_lock_clock_ms c.now);
}

-- Run without interference, acquireMemoryWriteAheadFileLock takes a lock that is free, with four
-- accesses; it stamps the heartbeat, records the owner and leaves the counter.
pub acquire-free :
    (owner stale : ℕ) (c : ℕ → Choice) (w : LockWords)
    → w.lock ≡ pos 0
    → alone 4 owner stale c trying w ≡ (holding, held_words owner (c 1) w)
unfolding alone access
acquire-free owner stale c w e = rw e refl

abandoned-held :
    (stale : ℕ) (l : ℤ) (a : Option ℕ) → is_abandoned stale l a ≡ true → eqb_ℤ l (pos 0) ≡ false
abandoned-held stale (pos zero) a e = cc
abandoned-held stale (pos (suc n)) a e = ground arith
abandoned-held stale (negsuc n) a e = refl

access-trying :
    (owner stale : ℕ) (c : Choice) (w : LockWords)
    → eqb_ℤ w.lock (pos 0) ≡ false
    → access owner stale c trying w ≡ (recovering, w)
unfolding access
access-trying owner stale c w e = rw e refl

access-looking_free :
    (owner stale : ℕ) (c : Choice) (w : LockWords)
    → w.lock ≡ pos 0
    → access owner stale c looking w ≡ (trying, w)
unfolding access
access-looking_free owner stale c w e = rw e refl

-- Run without interference, acquireMemoryWriteAheadFileLock takes an abandoned lock: it recovers it,
-- counts the recovery, and then takes it as a free one.
pub acquire-abandoned :
    (owner stale : ℕ) (c : ℕ → Choice) (w : LockWords) (n : ℕ)
    → n ≡ recovery_length stale w.lock (age_at (c 2) w)
    → is_abandoned stale w.lock (age_at (c 2) w) ≡ true
    → alone (suc (n + 5)) owner stale c trying w
      ≡ (holding, held_words owner (after n (λ k. c (suc k)) 2) (recovered_words w))
acquire-abandoned owner stale c w n e g =
    alone-then (n + 5) owner stale c trying w
      (access-trying owner stale (c 0) w (abandoned-held stale w.lock _ g))
      (alone-append n 5 owner stale (λ k. c (suc k)) recovering w
        (subst
          (λ m. alone m owner stale (λ k. c (suc k)) recovering w ≡ (looking, recovered_words w))
          (sym e) (recover-alone owner stale (λ k. c (suc k)) w ∙ rw g refl))
        (alone-then 4 owner stale (after n (λ k. c (suc k))) looking (recovered_words w)
          (access-looking_free owner stale (after n (λ k. c (suc k)) 0) (recovered_words w) refl)
          (acquire-free owner stale (λ j. after n (λ k. c (suc k)) (suc j)) (recovered_words w)
            refl)))
