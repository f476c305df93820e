-- ===== src/Vfs/Protocol/Unlocked.antt =====
-- jUnlock keeps the invariant of the lock protocol (src/MemoryWriteAheadVFS.ts).
use memory_write_ahead_vfs.Base.{
  ℕ, ◌≤◌, not, Option, none, some, List, [], ◌∷◌, Result, ok, err, ◌≡◌, ◌⊎◌, inl, inr, refl, sym,
  ap, ◌∙◌, arith,
}
use mathlib.Core.Path.{subst}
use memory_write_ahead_vfs.SharedFile.{SharedFile}
use memory_write_ahead_vfs.Vfs.{
  VfsError, Isolation, Platform, LazyMode, lazy_none, lazy_read, lazy_write, lazy_readwrite,
  RetryState, no_result, done, rejected, retry_upgrade, Session, after, catch, put_effect,
  is_main_db, sqlite_ok, sqlite_ioerr_unlock, sqlite_lock_none, sqlite_lock_shared,
}
use memory_write_ahead_vfs.Vfs.Locking.{
  j_unlock, release_locks, with_locks, without_hint, set_level, has_result,
}
use memory_write_ahead_vfs.Vfs.Outcomes.{&&-false}
use memory_write_ahead_vfs.Vfs.Requests.{retry_of}
use memory_write_ahead_vfs.Vfs.Unlocking.{j_unlock-keeps}
use memory_write_ahead_vfs.Vfs.Protocol.{Protected}

module _ {W L : Type 0} (p : Platform W L) where
  -- A lower level, that is not the first of a file with another operation than an upgrade queued.
  lowered-Protected :
      (lower : ℕ) (s : Session W L)
      → (protected : Protected p s) → lower ≤ 1
      → lower ≤ protected.level
      → Protected p (record s { file = record (s.file) { lock_state = some lower } })
  lowered-Protected lower s protected small below = record {
    ahead = protected.ahead;
    has = protected.has;
    level = lower;
    at_level = refl;
    reads = λ h. protected.reads (omega (arith, h, below));
    writes = λ h. absurd (omega (arith, h, small));
    result = protected.result;
    waiting = elim (protected.waiting) [
      | inl empty ↦ inl empty
      | inr more ↦ elim more [
        | inl upgrades ↦ inr (inl upgrades)
        | inr waits ↦ inr (inr (omega (arith, waits.0, below), waits.1))
      ]
    ];
  }

  -- A file without a result of a retry.
  abbrev IsFree : Session W L → Type 0
  IsFree t =
      ((w : W) × (t.file.write_ahead ≡ some w))
      × (t.file.retry_result ≡ no_result)
      × ((t.queue ≡ [])
          ⊎ (t.queue ≡ retry_upgrade ∷ [])
          ⊎ ((mode : Isolation) × (t.queue ≡ retry_of mode ∷ [])))

  free-Protected : (t : Session W L) → IsFree t → Protected p (set_level 0 (without_hint t)).1
  free-Protected t ((w, has), result, waiting) = record {
    ahead = w;
    has = has;
    level = 0;
    at_level = refl;
    reads = λ h. absurd (omega (arith, h));
    writes = λ h. absurd (omega (arith, h));
    result = λ d. absurd cc;
    waiting = elim waiting [
      | inl empty ↦ inl empty
      | inr more ↦ elim more [
        | inl upgrades ↦ inr (inl upgrades)
        | inr queued ↦ inr (inr (refl, queued))
      ]
    ];
  }

  released-Protected :
      (mode : Option LazyMode) (t : Session W L)
      → IsFree t
      → Protected p (set_level 0 (without_hint (release_locks p mode t))).1
  released-Protected (some lazy_none) t free =
      free-Protected (with_locks p.release p.release t) free
  released-Protected (some lazy_read) t free =
      free-Protected (with_locks p.release p.release_lazy t) free
  released-Protected (some lazy_write) t free =
      free-Protected (with_locks p.release_lazy p.release t) free
  released-Protected (some lazy_readwrite) t free =
      free-Protected (with_locks p.release_lazy p.release_lazy t) free
  released-Protected none t free = free-Protected (with_locks p.release_lazy p.release_lazy t) free

  abbrev finish_unlock : Unit {0} → Session W L → Result VfsError ℕ × Session W L
  finish_unlock _ t = set_level 0 (without_hint (release_locks p t.file.use_lazy_lock t))

  rejoined-Protected :
      (out : Result VfsError (Unit {0}) × (W × List SharedFile)) (t : Session W L)
      → (t.file.retry_result ≡ no_result)
        × ((t.queue ≡ [])
            ⊎ (t.queue ≡ retry_upgrade ∷ [])
            ⊎ ((mode : Isolation) × (t.queue ≡ retry_of mode ∷ [])))
      → (catch (λ _. sqlite_ioerr_unlock) (after (put_effect out t) finish_unlock)).0 ≡ sqlite_ok
      → Protected p (catch (λ _. sqlite_ioerr_unlock) (after (put_effect out t) finish_unlock)).1
  rejoined-Protected (err e, w) t free succeeds = absurd (omega (arith, succeeds))
  rejoined-Protected (ok _, w) t free succeeds =
      released-Protected t.file.use_lazy_lock (put_effect {A = Unit {0}} (ok tt, w) t).1
        ((w.0, refl), free.0, free.1)

  unlock-Protected :
      (result : RetryState) (s : Session W L)
      → Protected p s
      → s.file.retry_result ≡ result
      → (j_unlock p sqlite_lock_none s).0 ≡ sqlite_ok
      → Protected p (j_unlock p sqlite_lock_none s).1
  unfolding j_unlock
  unlock-Protected no_result s protected e succeeds =
      let run : j_unlock p sqlite_lock_none s
          ≡ catch (λ _. sqlite_ioerr_unlock)
              (after (put_effect (p.rejoin (protected.ahead, s.files)) s) finish_unlock) =
        rw (e, protected.has, &&-false (is_main_db s.file)) refl in
      subst (λ out. Protected p out.1) (sym run)
        (rejoined-Protected (p.rejoin (protected.ahead, s.files)) s
          (
            e,
            elim (protected.waiting) [
              | inl empty ↦ inl empty
              | inr more ↦ elim more [
                | inl upgrades ↦ inr (inl upgrades)
                | inr waits ↦ inr (inr (waits.1))
              ]
            ],
          )
          (ap (λ out. out.0) (sym run) ∙ succeeds))
  unlock-Protected done s protected e succeeds =
      subst (λ out. Protected p out.1) (sym (j_unlock-keeps p 0 s (ap has_result e)))
        (lowered-Protected 0 s protected (omega arith) (omega arith))
  unlock-Protected (rejected x) s protected e succeeds =
      subst (λ out. Protected p out.1) (sym (j_unlock-keeps p 0 s (ap has_result e)))
        (lowered-Protected 0 s protected (omega arith) (omega arith))

  pub j_unlock-Protected :
      (s : Session W L)
      → Protected p s
      → (j_unlock p sqlite_lock_none s).0 ≡ sqlite_ok
      → Protected p (j_unlock p sqlite_lock_none s).1
  j_unlock-Protected s protected succeeds =
      unlock-Protected s.file.retry_result s protected refl succeeds

  pub j_unlock-Protected_shared :
      (level : ℕ) (s : Session W L)
      → Protected p s
      → s.file.lock_state ≡ some level
      → 1 ≤ level
      → Protected p (j_unlock p sqlite_lock_shared s).1
  unfolding j_unlock
  j_unlock-Protected_shared level s protected e high =
      let run : j_unlock p sqlite_lock_shared s
          ≡ (sqlite_ok, record s { file = record (s.file) { lock_state = some 1 } }) =
        rw (&&-false (not (has_result s.file.retry_result))) refl in
      let same : protected.level ≡ level = cc in
      subst (λ out. Protected p out.1) (sym run)
        (lowered-Protected 1 s protected (omega arith) (omega (arith, same, high)))
