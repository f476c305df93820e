-- ===== src/Vfs/Protocol/Operations.antt =====
-- The operations that jLock queues keep the invariant of the lock protocol (src/MemoryWriteAheadVFS.ts).
use memory_write_ahead_vfs.Base.{
  ℕ, Bool, true, false, Option, none, some, List, [], ◌∷◌, Result, ok, err, ◌≡◌, inl, inr, refl,
  sym, ap, ◌∙◌, arith,
}
use mathlib.Core.Path.{subst}
use memory_write_ahead_vfs.SharedFile.{SharedFile}
use memory_write_ahead_vfs.Vfs.{
  VfsError, lock_timed_out, stale_snapshot, Isolation, for_read, for_write, Platform,
  retry_lock_read, retry_lock_write, Session, after, put_effect,
}
use memory_write_ahead_vfs.Vfs.Retry.{
  settle, undoing, demand, acquire_write, release_write, upgrade, retry_upgrade_deferred_write,
  retry_lock_read_operation, retry_lock_write_operation,
}
use memory_write_ahead_vfs.Vfs.Outcomes.{IsDocumented}
use memory_write_ahead_vfs.Vfs.Granted.{
  IsSettled, retry_lock_read-IsSettled, retry_lock_write-IsSettled,
}
use memory_write_ahead_vfs.Vfs.Requests.{retry_of}
use memory_write_ahead_vfs.Vfs.Protocol.{IsSteady, Protected, taken}
use memory_write_ahead_vfs.Vfs.Protocol.Shared.{is_isolated}
use memory_write_ahead_vfs.Vfs.Protocol.Beyond.{
  not_true, threw, Fits, settled-Protected, Upgrades, try_upgrade_read_isolation_to_write-Upgrades,
}

module _ {W L : Type 0} (p : Platform W L) where
  -- The operation that upgrades, at any level.
  finish_retry-Protected :
      (isolation : Option Isolation) (level : ℕ)
      (out : Result VfsError Bool × (W × List SharedFile)) (t : Session W L)
      → Fits isolation level
      → t.file.lock_state ≡ some level
      → t.queue ≡ []
      → Upgrades p isolation out
      → Protected p
          (settle (undoing (release_write p) (after (put_effect out t) (demand stale_snapshot))))
  finish_retry-Protected isolation level (err e, w) t fits at empty upgrades =
      settled-Protected p isolation level _ (w.0)
        (record { fits = fits; at_level = at; empty = empty; result = λ h. absurd cc }) refl
        (upgrades.1 (threw refl))
  finish_retry-Protected isolation level (ok false, w) t fits at empty upgrades =
      settled-Protected p isolation level _ (w.0)
        (record { fits = fits; at_level = at; empty = empty; result = λ h. absurd cc }) refl
        (upgrades.1 (not_true refl))
  finish_retry-Protected isolation level (ok true, w) t fits at empty upgrades =
      settled-Protected p (some for_write) level _ (w.0)
        (record {
          fits = (λ h. is_isolated refl, λ h. refl);
          at_level = at;
          empty = empty;
          result = λ h. is_isolated refl;
        })
        refl (upgrades.0 refl)

  upgraded-Protected :
      (level : ℕ) (t : Session W L) (w : W)
      → IsDocumented p
      → IsSteady p
      → t.file.write_ahead ≡ some w
      → Fits (p.isolation_state w) level
      → t.file.lock_state ≡ some level
      → t.queue ≡ []
      → Protected p (
          settle (
            undoing
              (release_write p)
              (after (upgrade p t.file.write_ahead t) (demand stale_snapshot))))
  upgraded-Protected level t w d steady has fits at empty =
      subst
        (λ o.
          Protected p
            (settle (undoing (release_write p) (after (upgrade p o t) (demand stale_snapshot)))))
        (sym has)
        (finish_retry-Protected (p.isolation_state w) level _ t fits at empty
          (try_upgrade_read_isolation_to_write-Upgrades p (w, t.files) d steady))

  demanded-Protected :
      (level : ℕ) (acquires : Result VfsError Bool) (t : Session W L) (w : W)
      → IsDocumented p
      → IsSteady p
      → t.file.write_ahead ≡ some w
      → Fits (p.isolation_state w) level
      → t.file.lock_state ≡ some level
      → t.queue ≡ []
      → Protected p (
          settle (
            undoing (release_write p) (
              after
                (after (acquires, t) (demand lock_timed_out))
                (λ _ u. after (upgrade p u.file.write_ahead u) (demand stale_snapshot)))))
  demanded-Protected level (err e) t w d steady has fits at empty =
      settled-Protected p (p.isolation_state w) level _ w
        (record { fits = fits; at_level = at; empty = empty; result = λ h. absurd cc }) has refl
  demanded-Protected level (ok false) t w d steady has fits at empty =
      settled-Protected p (p.isolation_state w) level _ w
        (record { fits = fits; at_level = at; empty = empty; result = λ h. absurd cc }) has refl
  demanded-Protected level (ok true) t w d steady has fits at empty =
      upgraded-Protected level t w d steady has fits at empty

  acquired-Protected :
      (level : ℕ) (lock : Option L) (t : Session W L) (w : W)
      → IsDocumented p
      → IsSteady p
      → t.file.write_ahead ≡ some w
      → Fits (p.isolation_state w) level
      → t.file.lock_state ≡ some level
      → t.queue ≡ []
      → Protected p (
          settle (
            undoing (release_write p) (
              after
                (after (acquire_write p lock t) (demand lock_timed_out))
                (λ _ u. after (upgrade p u.file.write_ahead u) (demand stale_snapshot)))))
  acquired-Protected level none t w d steady has fits at empty =
      demanded-Protected level (ok false) t w d steady has fits at empty
  acquired-Protected level (some lock) t w d steady has fits at empty =
      let out = acquire_write p (some lock) t in
      demanded-Protected level (out.0) (out.1) w d steady has fits at empty

  pub retry_upgrade-Protected :
      (s : Session W L)
      → IsDocumented p
      → IsSteady p
      → Protected p s
      → Protected p (retry_upgrade_deferred_write p (taken p s))
  unfolding retry_upgrade_deferred_write
  retry_upgrade-Protected s d steady protected =
      acquired-Protected protected.level s.file.write_lock (taken p s) protected.ahead d steady
        protected.has (protected.reads, protected.writes) protected.at_level refl

  -- An operation that isolates an unlocked file.
  settled_unlocked-Protected :
      (mode : Isolation) (s t : Session W L)
      → IsSettled p mode s t
      → s.file.lock_state ≡ some 0
      → s.queue ≡ []
      → Protected p t
  settled_unlocked-Protected mode s t ((_, level, queue), inl (result, (w, has, isolated))) unlocked
        empty =
      settled-Protected p (some mode) 0 t w
        (record {
          fits = (λ h. absurd (omega (arith, h)), λ h. absurd (omega (arith, h)));
          at_level = level ∙ unlocked;
          empty = queue ∙ empty;
          result = λ h. is_isolated refl;
        })
        has isolated
  settled_unlocked-Protected mode s t (((w, has), level, queue), inr (e, result)) unlocked empty =
      settled-Protected p (p.isolation_state w) 0 t w
        (record {
          fits = (λ h. absurd (omega (arith, h)), λ h. absurd (omega (arith, h)));
          at_level = level ∙ unlocked;
          empty = queue ∙ empty;
          result = λ h. absurd cc;
        })
        has refl

  -- Only an unlocked file has another operation than an upgrade queued.
  waits_unlocked :
      (mode : Isolation) (s : Session W L)
      → Protected p s
      → s.queue ≡ retry_of mode ∷ []
      → s.file.lock_state ≡ some 0
  waits_unlocked for_read s protected e = elim (protected.waiting) [
    | inl empty ↦ absurd cc
    | inr more ↦ elim more [
      | inl upgrades ↦ absurd cc
      | inr waits ↦ protected.at_level ∙ ap (λ l. some l) waits.0
    ]
  ]
  waits_unlocked for_write s protected e = elim (protected.waiting) [
    | inl empty ↦ absurd cc
    | inr more ↦ elim more [
      | inl upgrades ↦ absurd cc
      | inr waits ↦ protected.at_level ∙ ap (λ l. some l) waits.0
    ]
  ]

  pub retry_lock_read-Protected :
      (s : Session W L)
      → IsDocumented p
      → Protected p s
      → s.queue ≡ retry_lock_read ∷ []
      → Protected p (retry_lock_read_operation p (taken p s))
  retry_lock_read-Protected s d protected e =
      settled_unlocked-Protected for_read (taken p s) _
        (retry_lock_read-IsSettled p (taken p s) d protected.ahead protected.has)
        (waits_unlocked for_read s protected e) refl

  pub retry_lock_write-Protected :
      (s : Session W L)
      → IsDocumented p
      → Protected p s
      → s.queue ≡ retry_lock_write ∷ []
      → Protected p (retry_lock_write_operation p (taken p s))
  retry_lock_write-Protected s d protected e =
      settled_unlocked-Protected for_write (taken p s) _
        (retry_lock_write-IsSettled p (taken p s) d protected.ahead protected.has)
        (waits_unlocked for_write s protected e) refl
