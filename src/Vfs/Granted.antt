-- ===== src/Vfs/Granted.antt =====
-- A lock that had to wait (src/MemoryWriteAheadVFS.ts): the retry queued by jLock, and the jLock after it.
use memory_write_ahead_vfs.Base.{
  ℕ, Bool, true, false, Option, none, some, Result, ok, err, ◌≡◌, ◌≢◌, ◌⊎◌, refl, ap, ◌∙◌, inl, inr,
}
use memory_write_ahead_vfs.Vfs.{
  VfsError, lock_timed_out, stale_snapshot, Isolation, for_read, for_write, LockMode, shared,
  exclusive, Effect, Platform, LockingMode, exclusive_mode, normal_mode, no_result, done, rejected,
  Session, on_write_ahead, sqlite_ok,
}
use memory_write_ahead_vfs.Vfs.Retry.{
  settle, undoing, demand, acquire_read, acquire_write, release_read, release_write, isolate_then,
  write_isolated, lock_writer, upgrade, retry_lock_read_operation, retry_lock_write_operation,
  retry_upgrade_deferred_write,
}
use memory_write_ahead_vfs.Vfs.Outcomes.{IsDocumented, IsIsolated, Ends, Ends-of_result, after-Ends}

module _ {W L : Type 0} where
  -- The file still has a write-ahead, the same lock level, and nothing new is queued.
  abbrev pub Keeps : Session W L → Session W L → Type 0
  Keeps s t =
      ((w : W) × (t.file.write_ahead ≡ some w))
      × (t.file.lock_state ≡ s.file.lock_state)
      × (t.queue ≡ s.queue)

  -- The lock is granted: the file has the level, and is isolated for it.
  abbrev pub IsGranted : Platform W L → ℕ → Isolation → Session W L → ℕ × Session W L → Type 0
  IsGranted p level mode s (code, t) =
      (code ≡ sqlite_ok)
      × (t.file.lock_state ≡ some level)
      × (t.file.retry_result ≡ no_result)
      × (t.queue ≡ s.queue)
      × IsIsolated p (some mode) t

  -- It is not: an error code, the level as before, and no result is left.
  abbrev pub IsRefused : Session W L → ℕ × Session W L → Type 0
  IsRefused s (code, t) =
      (code ≢ sqlite_ok)
      × (t.file.lock_state ≡ s.file.lock_state)
      × (t.file.retry_result ≡ no_result)
      × (t.queue ≡ s.queue)

  -- What an operation that has ended has left.
  abbrev pub IsSettled : Platform W L → Isolation → Session W L → Session W L → Type 0
  IsSettled p mode s t =
      Keeps s t
      × (((t.file.retry_result ≡ done) × IsIsolated p (some mode) t)
          ⊎ ((e : VfsError) × (t.file.retry_result ≡ rejected e)))

  settle-IsSettled :
      (p : Platform W L) (mode : Isolation) (s : Session W L)
      (out : Result VfsError (Unit {0}) × Session W L)
      → Ends (λ e t. Keeps s t) (λ _ t. Keeps s t × IsIsolated p (some mode) t) out
      → IsSettled p mode s (settle out)
  settle-IsSettled p mode s (err e, t) ends = (ends.how, inr (e, refl))
  settle-IsSettled p mode s (ok _, t) ends = (ends.how.0, inl (refl, ends.how.1))

  demand-Ends :
      (s : Session W L) (e : VfsError) (b : Bool) (t : Session W L)
      → Keeps s t
      → Ends (λ _. Keeps s) (λ _. Keeps s) (demand e b t)
  demand-Ends s e true t keeps = record { how = keeps }
  demand-Ends s e false t keeps = record { how = keeps }

  module _ (p : Platform W L) where
    acquire_read-Ends :
        (s : Session W L) (mode : LockMode) (lock : Option L) (t : Session W L)
        → Keeps s t
        → Ends (λ _. Keeps s) (λ _. Keeps s) (acquire_read p mode lock t)
    acquire_read-Ends s mode none t keeps = record { how = keeps }
    acquire_read-Ends s mode (some lock) t keeps =
        Ends-of_result (p.acquire mode t.file.timeout lock).0 _ (λ e. keeps) (λ a _. keeps)

    acquire_write-Ends :
        (s : Session W L) (lock : Option L) (t : Session W L)
        → Keeps s t
        → Ends (λ _. Keeps s) (λ _. Keeps s) (acquire_write p lock t)
    acquire_write-Ends s none t keeps = record { how = keeps }
    acquire_write-Ends s (some lock) t keeps =
        Ends-of_result (p.acquire exclusive t.file.timeout lock).0 _ (λ e. keeps) (λ a _. keeps)

    -- An isolation that returns has isolated the write-ahead.
    abbrev pub Isolates : Effect W (Unit {0}) → Isolation → Type 0
    Isolates isolate mode =
        (w : _) → (isolate w).0 ≡ ok tt → p.isolation_state (isolate w).1.0 ≡ some mode

    abbrev pub Isolated : Isolation → Session W L → Unit {0} → Session W L → Type 0
    Isolated mode s _ t = Keeps s t × IsIsolated p (some mode) t

    pub on_write_ahead-Ends :
        (isolate : Effect W (Unit {0})) (mode : Isolation) (s : Session W L) (ahead : Option W)
        (t : Session W L)
        → Isolates isolate mode
        → t.file.write_ahead ≡ ahead
        → Keeps s t
        → Ends (λ _. Keeps s) (Isolated mode s) (on_write_ahead tt isolate ahead t)
    on_write_ahead-Ends isolate mode s none t isolates e ((w, has), level, queue) = absurd (cc)
    on_write_ahead-Ends isolate mode s (some w) t isolates e ((w', has), level, queue) =
        Ends-of_result (isolate (w, t.files)).0 _ (λ e. ((_, refl), level, queue))
          (λ a r. (((_, refl), level, queue), (_, refl, isolates (w, t.files) r)))

    undoing-Ends :
        {A : Type 0} (good : A → Session W L → Type 0) (s : Session W L)
        (undo : Session W L → Session W L)
        → ((t : Session W L) → Keeps s t → Keeps s (undo t))
        → (out : Result VfsError A × Session W L) → Ends (λ _. Keeps s) good out
        → Ends (λ _. Keeps s) good (undoing undo out)
    undoing-Ends good s undo keeps (err e, t) ends = record { how = keeps t ends.how }
    undoing-Ends good s undo keeps (ok a, t) ends = record { how = ends.how }

    isolate_then-Ends :
        (isolate : Effect W (Unit {0})) (mode : Isolation) (s : Session W L)
        (undo : Session W L → Session W L)
        → Isolates isolate mode
        → ((t : Session W L) → Keeps s t → Keeps s (undo t))
        → (u : Unit {0}) (t : Session W L) → Keeps s t
        → Ends (λ _. Keeps s) (Isolated mode s) (isolate_then p isolate undo u t)
    isolate_then-Ends isolate mode s undo isolates keeps_undo u t keeps =
        undoing-Ends (Isolated mode s) s undo keeps_undo _
          (on_write_ahead-Ends isolate mode s t.file.write_ahead t isolates refl keeps)

    -- A queued read lock ends with its result in the file: isolated for reading, or an error.
    pub retry_lock_read-IsSettled :
        (s : Session W L)
        → IsDocumented p
        → (w : W) → s.file.write_ahead ≡ some w
        → IsSettled p for_read s (retry_lock_read_operation p s)
    unfolding retry_lock_read_operation
    retry_lock_read-IsSettled s d w has = settle-IsSettled p for_read s _ (
        after-Ends _ _
          (after-Ends _ _ (acquire_read-Ends s shared s.file.read_lock s ((w, has), refl, refl))
            (demand-Ends s lock_timed_out))
          (isolate_then-Ends p.isolate_for_read for_read s (release_read p) d.isolates_read
            (λ t keeps. keeps)))

    write_isolated-Ends :
        (s : Session W L)
        → IsDocumented p
        → (t : Session W L) → Keeps s t
        → Ends (λ _. Keeps s) (Isolated for_write s) (write_isolated p t)
    write_isolated-Ends s d t keeps =
        after-Ends _ _
          (after-Ends _ _ (acquire_write-Ends s t.file.write_lock t keeps)
            (demand-Ends s lock_timed_out))
          (isolate_then-Ends p.isolate_for_write for_write s (release_write p) d.isolates_write
            (λ t keeps. keeps))

    lock_writer-Ends :
        (s : Session W L)
        → IsDocumented p
        → (mode : LockingMode) → Keeps s s
        → Ends (λ _. Keeps s) (Isolated for_write s) (lock_writer p mode s)
    lock_writer-Ends s d exclusive_mode keeps =
        after-Ends _ _
          (after-Ends _ _ (acquire_read-Ends s exclusive s.file.read_lock s keeps)
            (demand-Ends s lock_timed_out))
          (λ _ t k.
            undoing-Ends (Isolated for_write s) s (release_read p) (λ t keeps. keeps) _
              (write_isolated-Ends s d t k))
    lock_writer-Ends s d normal_mode keeps = write_isolated-Ends s d s keeps

    -- A queued write lock ends with its result in the file: isolated for writing, or an error.
    pub retry_lock_write-IsSettled :
        (s : Session W L)
        → IsDocumented p
        → (w : W) → s.file.write_ahead ≡ some w
        → IsSettled p for_write s (retry_lock_write_operation p s)
    unfolding retry_lock_write_operation
    retry_lock_write-IsSettled s d w has =
        settle-IsSettled p for_write s _
          (lock_writer-Ends s d s.file.locking_mode ((w, has), refl, refl))

    abbrev pub Upgraded : Session W L → Bool → Session W L → Type 0
    Upgraded s b t = Keeps s t × ((b ≡ true) → IsIsolated p (some for_write) t)

    upgrade-Ends :
        (s : Session W L)
        → IsDocumented p
        → (ahead : Option W) (t : Session W L) → Keeps s t
        → Ends (λ _. Keeps s) (Upgraded s) (upgrade p ahead t)
    upgrade-Ends s d none t keeps = record { how = keeps }
    upgrade-Ends s d (some w) t (has, level, queue) =
        Ends-of_result (p.try_upgrade_read_isolation_to_write (w, t.files)).0 _
          (λ e. ((_, refl), level, queue))
          (λ a r. (
            ((_, refl), level, queue),
            λ yes. (_, refl, d.upgrades (w, t.files) (r ∙ ap (λ x. ok x) yes)),
          ))

    demand-Upgraded-Ends :
        (s : Session W L) (b : Bool) (t : Session W L)
        → Upgraded s b t
        → Ends (λ _. Keeps s) (Isolated for_write s) (demand stale_snapshot b t)
    demand-Upgraded-Ends s true t (keeps, isolated) = record { how = (keeps, isolated refl) }
    demand-Upgraded-Ends s false t (keeps, isolated) = record { how = keeps }

    -- A queued upgrade ends with its result in the file: isolated for writing, or an error.
    pub retry_upgrade-IsSettled :
        (s : Session W L)
        → IsDocumented p
        → (w : W) → s.file.write_ahead ≡ some w
        → IsSettled p for_write s (retry_upgrade_deferred_write p s)
    unfolding retry_upgrade_deferred_write
    retry_upgrade-IsSettled s d w has = settle-IsSettled p for_write s _ (
        undoing-Ends (Isolated for_write s) s (release_write p) (λ t keeps. keeps) _
          (after-Ends _ _
            (after-Ends _ _ (acquire_write-Ends s s.file.write_lock s ((w, has), refl, refl))
              (demand-Ends s lock_timed_out))
            (λ _ t keeps.
              after-Ends _ _ (upgrade-Ends s d t.file.write_ahead t keeps)
                (demand-Upgraded-Ends s))))
