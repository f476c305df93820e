-- ===== src/Vfs/Requests.antt =====
-- A lock request of the primary database (src/MemoryWriteAheadVFS.ts): jLock grants it with the isolation
-- it needs, queues the retry that gets it, or refuses it.
use memory_write_ahead_vfs.Base.{
  sym, ℕ, ◌≤◌, Bool, true, false, Option, none, some, [], ◌∷◌, ◌++◌, Result, ok, err, ◌≡◌, ◌≢◌, ◌⊎◌,
  refl, ap, ◌∙◌, inl, inr, le→leb,
}
use mathlib.Core.Path.{subst}
use memory_write_ahead_vfs.Vfs.{
  VfsError, Isolation, for_read, for_write, shared, exclusive, Platform, LockingMode, normal_mode,
  exclusive_mode, WriteHint, RetryState, no_result, done, rejected, Operation, retry_lock_read,
  retry_lock_write, retry_upgrade, Session, catch, sqlite_ok, sqlite_busy, sqlite_lock_none,
  sqlite_lock_shared, on_write_ahead,
}
use memory_write_ahead_vfs.Vfs.Locking.{
  lock_error, lock_isolated, lock_shared, lock_reserved, lock_by_hint, lock_by_mode, isolate_writer,
  isolate_reader, lock_from, upgrade_if_held, finish_upgrade, on_write_lock, on_read_lock,
  raise_retry_error, j_lock, is_level,
}
use memory_write_ahead_vfs.Vfs.Outcomes.{
  IsDocumented, &&-false, Ends, Ends-of_result, after-Ends, lock_error-refuses,
}
use memory_write_ahead_vfs.Vfs.Granted.{IsGranted, Keeps, on_write_ahead-Ends, Upgraded}
use memory_write_ahead_vfs.Vfs.Retried.{j_lock-primary, not_shared}

-- The isolation that a file gets with SHARED, and the retry that isolates so.
abbrev pub mode_of : LockingMode → Option WriteHint → Isolation
mode_of exclusive_mode hint = for_write
mode_of normal_mode none = for_read
mode_of normal_mode (some hint) = for_write

abbrev pub retry_of : Isolation → Operation
retry_of for_read = retry_lock_read
retry_of for_write = retry_lock_write

module _ {W L : Type 0} where
  abbrev pub Decided :
      Platform W L → ℕ → Isolation → Operation → Session W L → ℕ × Session W L → Type 0
  Decided p level mode op s (code, t) =
      IsGranted p level mode s (code, t)
      ⊎ ((code ≡ sqlite_busy)
          × (t.file.lock_state ≡ s.file.lock_state)
          × (t.queue ≡ s.queue ++ op ∷ []))
      ⊎ ((code ≢ sqlite_ok) × (t.file.lock_state ≡ s.file.lock_state) × (t.queue ≡ s.queue))

  module _ (p : Platform W L) where
    catch-Decided :
        (level : ℕ) (mode : Isolation) (op : Operation) (s : Session W L)
        (out : Result VfsError ℕ × Session W L)
        → Ends (λ _. Keeps s) (λ code t. Decided p level mode op s (code, t)) out
        → Decided p level mode op s (catch lock_error out)
    catch-Decided level mode op s (err e, t) ends =
        inr (inr (lock_error-refuses e, ends.how.1, ends.how.2))
    catch-Decided level mode op s (ok code, t) ends = ends.how

    on_write_lock-Ends :
        (s : Session W L) (call : L → Bool × L) (lock : Option L) (t : Session W L)
        → Keeps s t
        → Ends (λ _. Keeps s) (λ _. Keeps s) (on_write_lock call lock t)
    on_write_lock-Ends s call none t keeps = record { how = keeps }
    on_write_lock-Ends s call (some lock) t keeps = record { how = keeps }

    on_read_lock-Ends :
        (s : Session W L) (call : L → Bool × L) (lock : Option L) (t : Session W L)
        → Keeps s t
        → Ends (λ _. Keeps s) (λ _. Keeps s) (on_read_lock call lock t)
    on_read_lock-Ends s call none t keeps = record { how = keeps }
    on_read_lock-Ends s call (some lock) t keeps = record { how = keeps }

    abbrev Decides : ℕ → Isolation → Operation → Session W L → ℕ → Session W L → Type 0
    Decides level mode op s code t = Decided p level mode op s (code, t)

    queue-ends :
        (op : Operation) (s t : Session W L) → Keeps s t → t.queue ++ op ∷ [] ≡ s.queue ++ op ∷ []
    queue-ends op s t keeps = ap (λ q. q ++ op ∷ []) keeps.2

    isolate_writer-Ends :
        (level : ℕ) (s : Session W L)
        → IsDocumented p
        → (held : Bool) (t : Session W L) → Keeps s t
        → Ends
            (λ _. Keeps s)
            (Decides level for_write retry_lock_write s)
            (isolate_writer p level held t)
    isolate_writer-Ends level s d false t keeps = record {
      how = inr (inl (refl, keeps.1, queue-ends retry_lock_write s t keeps));
    }
    isolate_writer-Ends level s d true t keeps =
        after-Ends _ _
          (on_write_ahead-Ends p p.isolate_for_write for_write s t.file.write_ahead t
            d.isolates_write refl keeps)
          (λ _ u isolated. record { how = inl (refl, refl, refl, isolated.0.2, isolated.1) })

    isolate_reader-Ends :
        (level : ℕ) (s : Session W L)
        → IsDocumented p
        → (held : Bool) (t : Session W L) → Keeps s t
        → Ends
            (λ _. Keeps s)
            (Decides level for_read retry_lock_read s)
            (isolate_reader p level held t)
    isolate_reader-Ends level s d false t keeps = record {
      how = inr (inl (refl, keeps.1, queue-ends retry_lock_read s t keeps));
    }
    isolate_reader-Ends level s d true t keeps =
        after-Ends _ _
          (on_write_ahead-Ends p p.isolate_for_read for_read s t.file.write_ahead t d.isolates_read
            refl keeps)
          (λ _ u isolated. record { how = inl (refl, refl, refl, isolated.0.2, isolated.1) })

    lock_by_hint-Ends :
        (level : ℕ) (s : Session W L)
        → IsDocumented p
        → (hint : Option WriteHint) → Keeps s s
        → Ends
            (λ _. Keeps s)
            (Decides level (mode_of normal_mode hint) (retry_of (mode_of normal_mode hint)) s)
            (lock_by_hint p level hint s)
    lock_by_hint-Ends level s d none keeps =
        after-Ends _ _ (on_read_lock-Ends s (p.acquire_if_held shared) s.file.read_lock s keeps)
          (isolate_reader-Ends level s d)
    lock_by_hint-Ends level s d (some hint) keeps =
        after-Ends _ _
          (on_write_lock-Ends s (p.acquire_if_held exclusive) s.file.write_lock s keeps)
          (isolate_writer-Ends level s d)

    lock_by_mode-Ends :
        (level : ℕ) (s : Session W L)
        → IsDocumented p
        → (mode : LockingMode) → Keeps s s
        → Ends
            (λ _. Keeps s)
            (Decides level
              (mode_of mode s.file.write_hint)
              (retry_of (mode_of mode s.file.write_hint))
              s)
            (lock_by_mode p level mode s)
    lock_by_mode-Ends level s d exclusive_mode keeps = record { how = inr (inl (refl, refl, refl)) }
    lock_by_mode-Ends level s d normal_mode keeps =
        lock_by_hint-Ends level s d s.file.write_hint keeps

    -- With a write-ahead as documented, a request for SHARED of an unlocked file with no result of a
    -- retry is granted, and then the write-ahead is isolated, for writing if the file has a write hint or
    -- the exclusive locking mode and for reading otherwise; or the code is BUSY and the one retry that
    -- isolates so is queued; or it is an error with nothing queued. The level changes in the first case
    -- only.
    pub j_lock-Decided_shared :
        (s : Session W L)
        → IsDocumented p
        → (w : W) → s.file.write_ahead ≡ some w
        → s.file.lock_state ≡ some sqlite_lock_none
        → s.file.retry_result ≡ no_result
        → (let mode = mode_of s.file.locking_mode s.file.write_hint in
            Decided p sqlite_lock_shared mode (retry_of mode) s (j_lock p sqlite_lock_shared s))
    unfolding lock_isolated lock_shared
    j_lock-Decided_shared s d w has unlocked result =
        let mode = mode_of s.file.locking_mode s.file.write_hint in
        let e : j_lock p sqlite_lock_shared s
            ≡ catch lock_error (lock_by_mode p sqlite_lock_shared s.file.locking_mode s) =
          j_lock-primary p sqlite_lock_shared s w has ∙ rw (unlocked, result) refl in
        subst (λ out. Decided p sqlite_lock_shared mode (retry_of mode) s out) (sym e)
          (catch-Decided sqlite_lock_shared mode (retry_of mode) s _
            (lock_by_mode-Ends sqlite_lock_shared s d s.file.locking_mode ((w, has), refl, refl)))

    finish_upgrade-Ends :
        (level : ℕ) (s : Session W L) (b : Bool) (t : Session W L)
        → Upgraded p s b t
        → Ends (λ _. Keeps s) (Decides level for_write retry_upgrade s) (finish_upgrade p level b t)
    finish_upgrade-Ends level s true t (keeps, isolated) = record {
      how = inl (refl, refl, refl, keeps.2, isolated refl);
    }
    finish_upgrade-Ends level s false t (keeps, isolated) = record { how = keeps }

    try_upgrade-Ends :
        (s : Session W L)
        → IsDocumented p
        → (ahead : Option W) (t : Session W L) → Keeps s t
        → Ends
            (λ _. Keeps s)
            (Upgraded p s)
            (on_write_ahead false p.try_upgrade_read_isolation_to_write ahead t)
    try_upgrade-Ends s d none t keeps = record { how = (keeps, λ yes. absurd cc) }
    try_upgrade-Ends s d (some w) t keeps =
        Ends-of_result (p.try_upgrade_read_isolation_to_write (w, t.files)).0 _
          (λ e. ((_, refl), keeps.1, keeps.2))
          (λ a r. (
            ((_, refl), keeps.1, keeps.2),
            λ yes. (_, refl, d.upgrades (w, t.files) (r ∙ ap (λ x. ok x) yes)),
          ))

    upgrade_if_held-Ends :
        (level : ℕ) (s : Session W L)
        → IsDocumented p
        → (held : Bool) (t : Session W L) → Keeps s t
        → Ends
            (λ _. Keeps s)
            (Decides level for_write retry_upgrade s)
            (upgrade_if_held p level held t)
    upgrade_if_held-Ends level s d false t keeps = record {
      how = inr (inl (refl, keeps.1, queue-ends retry_upgrade s t keeps));
    }
    upgrade_if_held-Ends level s d true t keeps =
        after-Ends _ _ (try_upgrade-Ends s d t.file.write_ahead t keeps)
          (finish_upgrade-Ends level s)

    lock_from-Ends :
        (level : ℕ) (s : Session W L)
        → IsDocumented p
        → (isolation : Option Isolation) (w : W) → p.isolation_state w ≡ isolation
        → (t : Session W L) → t.file.write_ahead ≡ some w
        → Keeps s t
        → Ends
            (λ _. Keeps s)
            (Decides level for_write retry_upgrade s)
            (lock_from p level isolation t)
    lock_from-Ends level s d none w e t has keeps = upgrade_if_held-Ends level s d false t keeps
    lock_from-Ends level s d (some for_read) w e t has keeps =
        after-Ends _ _
          (on_write_lock-Ends s (p.acquire_if_held exclusive) t.file.write_lock t keeps)
          (upgrade_if_held-Ends level s d)
    lock_from-Ends level s d (some for_write) w e t has keeps = record {
      how = inl (refl, refl, refl, keeps.2, (w, has, e));
    }

    abbrev Raised : Session W L → W → Unit {0} → Session W L → Type 0
    Raised s w _ t = (t.file.write_ahead ≡ some w) × Keeps s t

    raise_retry_error-Ends :
        (s : Session W L) (w : W)
        → s.file.write_ahead ≡ some w
        → (result : RetryState) → Ends (λ _. Keeps s) (Raised s w) (raise_retry_error result s)
    raise_retry_error-Ends s w has no_result = record { how = (has, ((w, has), refl, refl)) }
    raise_retry_error-Ends s w has done = record { how = (has, ((w, has), refl, refl)) }
    raise_retry_error-Ends s w has (rejected e) = record { how = ((w, has), refl, refl) }

    -- With a write-ahead as documented, a request for RESERVED or beyond is granted, and then the
    -- write-ahead is isolated for writing; or the code is BUSY and one upgrade is queued; or it is an
    -- error with nothing queued. The level changes in the first case only.
    pub j_lock-Decided_reserved :
        (lock_type : ℕ) (s : Session W L)
        → IsDocumented p
        → (w : W) → s.file.write_ahead ≡ some w
        → 2 ≤ lock_type
        → Decided p lock_type for_write retry_upgrade s (j_lock p lock_type s)
    unfolding lock_isolated lock_reserved
    j_lock-Decided_reserved lock_type s d w has high =
        let e : j_lock p lock_type s ≡ catch lock_error (lock_reserved p lock_type w s) =
          j_lock-primary p lock_type s w has
          ∙ rw
              (
                not_shared p lock_type high,
                &&-false (is_level s.file.lock_state sqlite_lock_none),
                has,
                le→leb 2 lock_type high,
              )
              refl in
        subst (λ out. Decided p lock_type for_write retry_upgrade s out) (sym e)
          (catch-Decided lock_type for_write retry_upgrade s _ (
            after-Ends _ _ (raise_retry_error-Ends s w has s.file.retry_result) (λ _ t raised.
              lock_from-Ends lock_type s d (p.isolation_state w) w refl t raised.0 raised.1)))
