-- ===== src/Vfs/Outcomes.antt =====
-- How the calls of a handler end (src/MemoryWriteAheadVFS.ts): what holds when they return, and what
-- holds when they throw.
use memory_write_ahead_vfs.Base.{
  Bool, true, false, ◌&&◌, Option, none, some, List, Result, ok, err, ◌≡◌, ◌≢◌, refl, Bool-cases,
  inl, inr, arith,
}
use memory_write_ahead_vfs.SharedFile.{SharedFile}
use memory_write_ahead_vfs.Vfs.{
  VfsError, is_busy, Isolation, for_read, for_write, Platform, Session, Action, after, sqlite_ok,
}
use memory_write_ahead_vfs.Vfs.Locking.{lock_error}

-- What WriteAhead documents of its isolation state: a call that returns has entered it, or left it.
pub record IsDocumented {W L : Type 0} (p : Platform W L) : Type 0 where
  pub isolates_read :
      (w : W × List SharedFile)
      → (p.isolate_for_read w).0 ≡ ok tt
      → p.isolation_state (p.isolate_for_read w).1.0 ≡ some for_read
  pub isolates_write :
      (w : W × List SharedFile)
      → (p.isolate_for_write w).0 ≡ ok tt
      → p.isolation_state (p.isolate_for_write w).1.0 ≡ some for_write
  pub upgrades :
      (w : W × List SharedFile)
      → (p.try_upgrade_read_isolation_to_write w).0 ≡ ok true
      → p.isolation_state (p.try_upgrade_read_isolation_to_write w).1.0 ≡ some for_write
  pub rejoins :
      (w : W × List SharedFile) → (p.rejoin w).0 ≡ ok tt → p.isolation_state (p.rejoin w).1.0 ≡ none

pub &&-false : (b : Bool) → (b && false) ≡ false
&&-false true = refl
&&-false false = refl

module _ {W L : Type 0} where
  -- The file has a write-ahead, isolated as given.
  abbrev pub IsIsolated : Platform W L → Option Isolation → Session W L → Type 0
  IsIsolated p isolation s =
      (w : W) × (s.file.write_ahead ≡ some w) × (p.isolation_state w ≡ isolation)

  abbrev pub Ending :
      {A : Type 0}
      → (VfsError → Session W L → Type 0)
      → (A → Session W L → Type 0)
      → Result VfsError A × Session W L
      → Type 0
  Ending bad good (err e, s) = bad e s
  Ending bad good (ok a, s) = good a s

  -- `bad` holds where the call throws, `good` where it returns.
  pub record Ends {A : Type 0} (bad : VfsError → Session W L → Type 0)
      (good : A → Session W L → Type 0) (out : Result VfsError A × Session W L) : Type 0 where
    pub how : Ending bad good out

  pub Ends-of_result :
      {A : Type 0} {bad : VfsError → Session W L → Type 0} {good : A → Session W L → Type 0}
      (result : Result VfsError A) (s : Session W L)
      → ((e : VfsError) → bad e s)
      → ((a : A) → result ≡ ok a → good a s)
      → Ends bad good (result, s)
  Ends-of_result (err e) s throws returns = record { how = throws e }
  Ends-of_result (ok a) s throws returns = record { how = returns a refl }

  pub after-Ends :
      {A B : Type 0} {bad : VfsError → Session W L → Type 0} {good : A → Session W L → Type 0}
      {good' : B → Session W L → Type 0} (out : Result VfsError A × Session W L)
      (rest : A → Action W L B)
      → Ends bad good out
      → ((a : A) (s : Session W L) → good a s → Ends bad good' (rest a s))
      → Ends bad good' (after out rest)
  after-Ends (err e, s) rest ends more = record { how = ends.how }
  after-Ends (ok a, s) rest ends more = more a s ends.how

pub lock_error-refuses : (e : VfsError) → lock_error e ≢ sqlite_ok
lock_error-refuses e = elim (Bool-cases (is_busy e)) [
  | inl b ↦ rw b (λ h. omega (arith, h))
  | inr b ↦ rw b (λ h. omega (arith, h))
]
