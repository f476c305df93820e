-- ===== src/Vfs/Unlocking.antt =====
-- jUnlock of the primary database (src/MemoryWriteAheadVFS.ts).
use memory_write_ahead_vfs.Base.{
  ℕ, Bool, true, false, Option, none, some, Result, ok, err, ◌≡◌, ◌⊎◌, refl, sym, inl, inr,
  if◌then◌else◌,
}
use mathlib.Core.Path.{subst}
use memory_write_ahead_vfs.Vfs.{
  VfsError, Platform, LazyMode, lazy_none, lazy_read, lazy_write, lazy_readwrite, no_result,
  Session, after, catch, on_write_ahead, sqlite_ok, sqlite_ioerr_unlock, sqlite_lock_none,
  is_main_db,
}
use memory_write_ahead_vfs.Vfs.Locking.{
  change, j_unlock, release_locks, without_hint, set_level, has_result,
}
use memory_write_ahead_vfs.Vfs.Outcomes.{
  IsDocumented, &&-false, IsIsolated, Ends, Ends-of_result, after-Ends,
}

-- Whether the mode keeps the write lock, and the read lock, for a later call.
abbrev pub keeps_write : Option LazyMode → Bool
keeps_write (some lazy_none) = false
keeps_write (some lazy_read) = false
keeps_write (some lazy_write) = true
keeps_write (some lazy_readwrite) = true
keeps_write none = true

abbrev pub keeps_read : Option LazyMode → Bool
keeps_read (some lazy_none) = false
keeps_read (some lazy_read) = true
keeps_read (some lazy_write) = false
keeps_read (some lazy_readwrite) = true
keeps_read none = true

module _ {W L : Type 0} (p : Platform W L) where
  abbrev pub release_by : Bool → L → L
  release_by is_lazy = if is_lazy then p.release_lazy else p.release

  -- The file is unlocked: its view of the database is not isolated any more.
  pub record IsUnlocked (s t : Session W L) : Type 0 where
    pub level : t.file.lock_state ≡ some sqlite_lock_none
    pub hint : t.file.write_hint ≡ none
    pub isolation : IsIsolated p none t
    pub write_lock :
        t.file.write_lock ≡ change (release_by (keeps_write s.file.use_lazy_lock)) s.file.write_lock
    pub read_lock :
        t.file.read_lock ≡ change (release_by (keeps_read s.file.use_lazy_lock)) s.file.read_lock

  -- It is locked as before.
  abbrev pub IsLocked : Session W L → Session W L → Type 0
  IsLocked s t =
      (t.file.lock_state ≡ s.file.lock_state)
      × (t.file.write_lock ≡ s.file.write_lock)
      × (t.file.read_lock ≡ s.file.read_lock)

  abbrev Rejoined : Session W L → Unit {0} → Session W L → Type 0
  Rejoined s _ t =
      (t.file.write_lock ≡ s.file.write_lock)
      × (t.file.read_lock ≡ s.file.read_lock)
      × (t.file.use_lazy_lock ≡ s.file.use_lazy_lock)
      × IsIsolated p none t

  release_locks-IsUnlocked :
      (mode : Option LazyMode) (s t : Session W L)
      → s.file.use_lazy_lock ≡ mode
      → Rejoined s tt t
      → IsUnlocked s (set_level sqlite_lock_none (without_hint (release_locks p mode t))).1
  release_locks-IsUnlocked (some lazy_none) s t e (w, r, m, i) = record {
    level = refl;
    hint = refl;
    isolation = i;
    write_lock = rw (e, w) refl;
    read_lock = rw (e, r) refl;
  }
  release_locks-IsUnlocked (some lazy_read) s t e (w, r, m, i) = record {
    level = refl;
    hint = refl;
    isolation = i;
    write_lock = rw (e, w) refl;
    read_lock = rw (e, r) refl;
  }
  release_locks-IsUnlocked (some lazy_write) s t e (w, r, m, i) = record {
    level = refl;
    hint = refl;
    isolation = i;
    write_lock = rw (e, w) refl;
    read_lock = rw (e, r) refl;
  }
  release_locks-IsUnlocked (some lazy_readwrite) s t e (w, r, m, i) = record {
    level = refl;
    hint = refl;
    isolation = i;
    write_lock = rw (e, w) refl;
    read_lock = rw (e, r) refl;
  }
  release_locks-IsUnlocked none s t e (w, r, m, i) = record {
    level = refl;
    hint = refl;
    isolation = i;
    write_lock = rw (e, w) refl;
    read_lock = rw (e, r) refl;
  }

  abbrev pub Unlocks : Session W L → ℕ × Session W L → Type 0
  Unlocks s (code, t) =
      ((code ≡ sqlite_ok) × IsUnlocked s t) ⊎ ((code ≡ sqlite_ioerr_unlock) × IsLocked s t)

  catch-Unlocks :
      (s : Session W L) (out : Result VfsError ℕ × Session W L)
      → Ends (λ _. IsLocked s) (λ code t. (code ≡ sqlite_ok) × IsUnlocked s t) out
      → Unlocks s (catch (λ _. sqlite_ioerr_unlock) out)
  catch-Unlocks s (err e, t) ends = inr (refl, ends.how)
  catch-Unlocks s (ok code, t) ends = inl ends.how

  rejoin-Ends :
      (s : Session W L)
      → IsDocumented p
      → (w : W) → Ends (λ _. IsLocked s) (Rejoined s) (on_write_ahead tt p.rejoin (some w) s)
  rejoin-Ends s d w =
      Ends-of_result (p.rejoin (w, s.files)).0 _ (λ e. (refl, refl, refl))
        (λ a r. (refl, refl, refl, (_, refl, d.rejoins (w, s.files) r)))

  -- With a write-ahead as documented, unlocking a file with no result of a retry ends its isolation and
  -- its write hint and releases both locks, each of them lazily as its mode says; if the write-ahead
  -- throws, the code is an error and the level and the locks are as before.
  pub j_unlock-Unlocks :
      (s : Session W L)
      → IsDocumented p
      → (w : W) → s.file.write_ahead ≡ some w
      → s.file.retry_result ≡ no_result
      → Unlocks s (j_unlock p sqlite_lock_none s)
  unfolding j_unlock
  j_unlock-Unlocks s d w has result =
      let rest = λ (u : Unit {0}) (t : Session W L).
        set_level sqlite_lock_none (without_hint (release_locks p t.file.use_lazy_lock t)) in
      let e : j_unlock p sqlite_lock_none s
          ≡ catch (λ _. sqlite_ioerr_unlock) (after (on_write_ahead tt p.rejoin (some w) s) rest) =
        rw (result, has, &&-false (is_main_db s.file)) refl in
      subst (λ out. Unlocks s out) (sym e)
        (catch-Unlocks s _ (
          after-Ends _ rest (rejoin-Ends s d w) (λ a t r. record {
            how = (refl, release_locks-IsUnlocked t.file.use_lazy_lock s t (sym r.2) r);
          })))

  -- While a retry has left a result that no jLock has taken, jUnlock changes nothing but the level.
  pub j_unlock-keeps :
      (lock_type : ℕ) (s : Session W L)
      → has_result s.file.retry_result ≡ true
      → j_unlock p lock_type s
        ≡ (sqlite_ok, record s { file = record (s.file) { lock_state = some lock_type } })
  unfolding j_unlock
  j_unlock-keeps lock_type s left = rw left refl
