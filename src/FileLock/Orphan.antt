-- ===== src/FileLock/Orphan.antt =====
-- A release of the file lock that meets a recovery claim (src/MemoryWriteAheadVFS.ts).
use memory_write_ahead_vfs.Base.{ℕ, false, ℤ, eqb_ℤ, ◌==◌, ◌≡◌, refl, ap, ◌∙◌, arith, eqb_ℤ_refl}
use memory_write_ahead_vfs.SharedFile.{LockWords}
use memory_write_ahead_vfs.FileLock.{
  Pc, idle, releasing, rechecking, restoring, looking, Choice, access, System, step, with_lock,
  owner_word, get_file_lock_recovery_claim,
}

module _ (owner : ℕ → ℕ) (stale i : ℕ) (c : Choice) (s : System) where
  step-words :
      {p p' : Pc} {w : LockWords}
      → s.pc i ≡ p
      → access (owner i) stale c p s.words ≡ (p', w)
      → (step owner stale i c s).words ≡ w
  unfolding step
  step-words e h = rw e (ap (λ x. x.1) h)

  step-pc :
      {p p' : Pc} {w : LockWords}
      → s.pc i ≡ p
      → access (owner i) stale c p s.words ≡ (p', w)
      → (step owner stale i c s).pc i ≡ p'
  unfolding step
  step-pc e h = ground arith

  step-other : (j : ℕ) → (j == i) ≡ false → (step owner stale i c s).pc j ≡ s.pc j
  unfolding step
  step-other j d = rw d refl

-- A holder that releases while a recovery that will give up has its claim in the lock word frees
-- nothing, and the recovery then puts the holder's id back: nobody holds the lock and it is not free.
pub release_during_claim-orphans :
    (owner : ℕ → ℕ) (i k stale : ℕ) (c : Choice) (beat : ℤ) (s : System)
    → (k == i) ≡ false
    → s.pc i ≡ releasing
    → s.pc k ≡ rechecking (owner_word (owner i)) beat
    → eqb_ℤ s.words.lock_heartbeat_ms beat ≡ false
    → s.words.lock ≡ get_file_lock_recovery_claim (owner_word (owner i))
    → (let t = step owner stale k c (step owner stale k c (step owner stale i c s)) in
        (t.words.lock ≡ owner_word (owner i)) × (t.pc i ≡ idle) × (t.pc k ≡ looking))
release_during_claim-orphans owner i k stale c beat s d pi pk hb l =
    let a : access (owner i) stale c releasing s.words ≡ (idle, s.words) =
      unfold access in rw l refl in
    let w1 = step-words owner stale i c s pi a in
    let pk1 = step-other owner stale i c s k d ∙ pk in
    let s1 = step owner stale i c s in
    let b : access (owner k) stale c (rechecking (owner_word (owner i)) beat) s1.words
        ≡ (restoring (owner_word (owner i)), s.words) =
      unfold access in rw (w1, hb) refl in
    let s2 = step owner stale k c s1 in
    let w2 = step-words owner stale k c s1 pk1 b in
    let e : access (owner k) stale c (restoring (owner_word (owner i))) s2.words
        ≡ (looking, with_lock (owner_word (owner i)) s.words) =
      unfold access in
      rw (w2, l, eqb_ℤ_refl (get_file_lock_recovery_claim (owner_word (owner i)))) refl in
    let pk2 = step-pc owner stale k c s1 pk1 b in
    let d' : (i == k) ≡ false = ground arith in
    (
      ap (λ w. w.lock) (step-words owner stale k c s2 pk2 e),
      step-other owner stale k c s2 i d'
          ∙ (step-other owner stale k c s1 i d' ∙ step-pc owner stale i c s pi a),
      step-pc owner stale k c s2 pk2 e,
    )
