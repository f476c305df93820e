-- ===== src/Vfs/Protocol/Shared.antt =====
-- A request for SHARED keeps the invariant of the lock protocol (src/MemoryWriteAheadVFS.ts).
use memory_write_ahead_vfs.Base.{
  ℕ, ◌≤◌, Bool, true, false, Option, none, some, List, [], ◌∷◌, ◌++◌, Result, ok, err, ◌≡◌, ◌≢◌,
  ◌⊎◌, inl, inr, refl, sym, ap, ◌∙◌, arith,
}
use mathlib.Core.Path.{subst}
use memory_write_ahead_vfs.SharedFile.{SharedFile}
use memory_write_ahead_vfs.Vfs.{
  VfsError, Isolation, for_read, for_write, Platform, LockingMode, exclusive_mode, normal_mode,
  WriteHint, shared, exclusive, RetryState, no_result, done, rejected, retry_lock_read,
  retry_lock_write, Session, after, catch, put_effect, on_write_ahead, sqlite_lock_shared,
}
use memory_write_ahead_vfs.Vfs.Locking.{
  lock_error, lock_isolated, lock_shared, lock_by_mode, lock_by_hint, isolate_writer,
  isolate_reader, on_write_lock, on_read_lock, grant, j_lock,
}
use memory_write_ahead_vfs.Vfs.Outcomes.{IsDocumented}
use memory_write_ahead_vfs.Vfs.Retried.{j_lock-primary}
use memory_write_ahead_vfs.Vfs.Requests.{retry_of}
use memory_write_ahead_vfs.Vfs.Protocol.{Protected}

pub is_isolated : {state : Option Isolation} {mode : Isolation} → state ≡ some mode → state ≢ none
is_isolated e h = absurd cc

module _ {W L : Type 0} (p : Platform W L) where
  -- An unlocked file without a result of a retry, with nothing queued.
  record IsIdle (s : Session W L) : Type 0 where
    ahead : W
    has : s.file.write_ahead ≡ some ahead
    unlocked : s.file.lock_state ≡ some 0
    no_result_left : s.file.retry_result ≡ no_result
    empty : s.queue ≡ []

  -- Of an unlocked file without a result, any isolation will do.
  unlocked-Protected :
      (t : Session W L) (w : W)
      → t.file.write_ahead ≡ some w
      → t.file.lock_state ≡ some 0
      → t.file.retry_result ≢ done
      → (t.queue ≡ []) ⊎ ((mode : Isolation) × (t.queue ≡ retry_of mode ∷ []))
      → Protected p t
  unlocked-Protected t w has unlocked no_done waiting = record {
    ahead = w;
    has = has;
    level = 0;
    at_level = unlocked;
    reads = λ h. absurd (omega (arith, h));
    writes = λ h. absurd (omega (arith, h));
    result = λ d. absurd (no_done d);
    waiting = elim waiting [ inl e ↦ inl e | inr queued ↦ inr (inr (refl, queued)) ];
  }

  pub granted-Protected :
      (level : ℕ) (t : Session W L) (w : W) (mode : Isolation)
      → t.file.write_ahead ≡ some w
      → t.queue ≡ []
      → p.isolation_state w ≡ some mode
      → (2 ≤ level → mode ≡ for_write)
      → Protected p (grant level t).1
  granted-Protected level t w mode has empty isolated writes = record {
    ahead = w;
    has = has;
    level = level;
    at_level = refl;
    reads = λ h. is_isolated isolated;
    writes = λ h. isolated ∙ ap (λ m. some m) (writes h);
    result = λ d. absurd cc;
    waiting = inl empty;
  }

  isolated-Protected :
      (mode : Isolation) (out : Result VfsError (Unit {0}) × (W × List SharedFile))
      (t : Session W L)
      → IsIdle t
      → (out.0 ≡ ok tt → p.isolation_state out.1.0 ≡ some mode)
      → Protected p (catch lock_error (after (put_effect out t) (λ _. grant 1))).1
  isolated-Protected mode (err e, w) t idle isolates =
      unlocked-Protected _ (w.0) refl idle.unlocked (λ d. absurd cc) (inl idle.empty)
  isolated-Protected mode (ok _, w) t idle isolates =
      granted-Protected 1 (put_effect {A = Unit {0}} (ok tt, w) t).1 (w.0) mode refl idle.empty
        (isolates refl) (λ h. absurd (omega (arith, h)))

  isolate_writer-Protected :
      (held : Bool) (t : Session W L)
      → IsDocumented p
      → IsIdle t
      → Protected p (catch lock_error (isolate_writer p 1 held t)).1
  isolate_writer-Protected false t d idle =
      unlocked-Protected _ idle.ahead idle.has idle.unlocked (λ e. absurd cc)
        (inr (for_write, ap (λ q. q ++ retry_lock_write ∷ []) idle.empty))
  isolate_writer-Protected true t d idle =
      let run : isolate_writer p 1 true t
          ≡ after (put_effect (p.isolate_for_write (idle.ahead, t.files)) t) (λ _. grant 1) =
        ap (λ o. after (on_write_ahead tt p.isolate_for_write o t) (λ _. grant 1)) idle.has in
      subst (λ out. Protected p (catch lock_error out).1) (sym run)
        (isolated-Protected for_write _ t idle (d.isolates_write (idle.ahead, t.files)))

  isolate_reader-Protected :
      (held : Bool) (t : Session W L)
      → IsDocumented p
      → IsIdle t
      → Protected p (catch lock_error (isolate_reader p 1 held t)).1
  isolate_reader-Protected false t d idle =
      unlocked-Protected _ idle.ahead idle.has idle.unlocked (λ e. absurd cc)
        (inr (for_read, ap (λ q. q ++ retry_lock_read ∷ []) idle.empty))
  isolate_reader-Protected true t d idle =
      let run : isolate_reader p 1 true t
          ≡ after (put_effect (p.isolate_for_read (idle.ahead, t.files)) t) (λ _. grant 1) =
        ap (λ o. after (on_write_ahead tt p.isolate_for_read o t) (λ _. grant 1)) idle.has in
      subst (λ out. Protected p (catch lock_error out).1) (sym run)
        (isolated-Protected for_read _ t idle (d.isolates_read (idle.ahead, t.files)))

  -- The record of a lock makes no difference.
  with_lock-IsIdle :
      (write_lock read_lock : Option L) (t : Session W L)
      → IsIdle t
      → IsIdle
          (record t { file = record (t.file) { write_lock = write_lock; read_lock = read_lock } })
  with_lock-IsIdle write_lock read_lock t idle = record {
    ahead = idle.ahead;
    has = idle.has;
    unlocked = idle.unlocked;
    no_result_left = idle.no_result_left;
    empty = idle.empty;
  }

  by_write_lock-Protected :
      (lock : Option L) (t : Session W L)
      → IsDocumented p
      → IsIdle t
      → Protected p
          (catch lock_error
            (after (on_write_lock (p.acquire_if_held exclusive) lock t) (isolate_writer p 1))).1
  by_write_lock-Protected none t d idle = isolate_writer-Protected false t d idle
  by_write_lock-Protected (some lock) t d idle =
      isolate_writer-Protected _ _ d (with_lock-IsIdle (some _) t.file.read_lock t idle)

  by_read_lock-Protected :
      (lock : Option L) (t : Session W L)
      → IsDocumented p
      → IsIdle t
      → Protected p
          (catch lock_error
            (after (on_read_lock (p.acquire_if_held shared) lock t) (isolate_reader p 1))).1
  by_read_lock-Protected none t d idle = isolate_reader-Protected false t d idle
  by_read_lock-Protected (some lock) t d idle =
      isolate_reader-Protected _ _ d (with_lock-IsIdle t.file.write_lock (some _) t idle)

  lock_by_hint-Protected :
      (hint : Option WriteHint) (t : Session W L)
      → IsDocumented p
      → IsIdle t
      → Protected p (catch lock_error (lock_by_hint p 1 hint t)).1
  lock_by_hint-Protected none t d idle = by_read_lock-Protected t.file.read_lock t d idle
  lock_by_hint-Protected (some hint) t d idle = by_write_lock-Protected t.file.write_lock t d idle

  lock_by_mode-Protected :
      (mode : LockingMode) (t : Session W L)
      → IsDocumented p
      → IsIdle t
      → Protected p (catch lock_error (lock_by_mode p 1 mode t)).1
  lock_by_mode-Protected exclusive_mode t d idle = record {
    ahead = idle.ahead;
    has = idle.has;
    level = 0;
    at_level = idle.unlocked;
    reads = λ h. absurd (omega (arith, h));
    writes = λ h. absurd (omega (arith, h));
    result = λ d e. absurd cc;
    waiting = inr (inr (refl, (for_write, ap (λ q. q ++ retry_lock_write ∷ []) idle.empty)));
  }
  lock_by_mode-Protected normal_mode t d idle = lock_by_hint-Protected t.file.write_hint t d idle

  lock_shared-Protected :
      (result : RetryState) (s : Session W L)
      → IsDocumented p
      → Protected p s
      → s.file.retry_result ≡ result
      → s.file.lock_state ≡ some 0
      → s.queue ≡ []
      → Protected p (catch lock_error (lock_shared p 1 result s)).1
  unfolding lock_shared
  lock_shared-Protected no_result s d protected e unlocked empty =
      lock_by_mode-Protected s.file.locking_mode s d (record {
        ahead = protected.ahead;
        has = protected.has;
        unlocked = unlocked;
        no_result_left = e;
        empty = empty;
      })
  lock_shared-Protected (rejected x) s d protected e unlocked empty =
      unlocked-Protected _ protected.ahead protected.has unlocked (λ d. absurd cc) (inl empty)
  lock_shared-Protected done s d protected e unlocked empty = record {
    ahead = protected.ahead;
    has = protected.has;
    level = 1;
    at_level = refl;
    reads = λ h. protected.result e empty;
    writes = λ h. absurd (omega (arith, h));
    result = λ d. absurd cc;
    waiting = inl empty;
  }

  pub j_lock-Protected_shared :
      (s : Session W L)
      → IsDocumented p
      → Protected p s
      → s.file.lock_state ≡ some 0
      → s.queue ≡ []
      → Protected p (j_lock p sqlite_lock_shared s).1
  unfolding lock_isolated
  j_lock-Protected_shared s d protected unlocked empty =
      let run : j_lock p sqlite_lock_shared s
          ≡ catch lock_error (lock_shared p 1 s.file.retry_result s) =
        j_lock-primary p sqlite_lock_shared s protected.ahead protected.has ∙ rw unlocked refl in
      subst (λ out. Protected p out.1) (sym run)
        (lock_shared-Protected s.file.retry_result s d protected refl unlocked empty)
