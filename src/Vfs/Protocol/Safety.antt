-- ===== src/Vfs/Protocol/Safety.antt =====
-- Every run of the lock protocol is safe (src/MemoryWriteAheadVFS.ts).
use memory_write_ahead_vfs.Base.{
  zero, suc, ℕ, ◌≤◌, Option, none, some, [], ◌≡◌, ◌≢◌, refl, arith, inl,
}
use memory_write_ahead_vfs.Vfs.{
  Isolation, for_write, Platform, no_result, Session, sqlite_lock_none,
}
use memory_write_ahead_vfs.Vfs.Outcomes.{IsDocumented, IsIsolated}
use memory_write_ahead_vfs.Vfs.Protocol.{
  Step, locks_shared, locks_beyond, unlocks, downgrades, runs_read, runs_write, runs_upgrade, Run,
  starts, goes_on, IsSteady, Protected,
}
use memory_write_ahead_vfs.Vfs.Protocol.Shared.{j_lock-Protected_shared}
use memory_write_ahead_vfs.Vfs.Protocol.Beyond.{j_lock-Protected_beyond}
use memory_write_ahead_vfs.Vfs.Protocol.Operations.{
  retry_lock_read-Protected, retry_lock_write-Protected, retry_upgrade-Protected,
}
use memory_write_ahead_vfs.Vfs.Protocol.Unlocked.{j_unlock-Protected, j_unlock-Protected_shared}

module _ {W L : Type 0} (p : Platform W L) where
  Step-Protected :
      (s t : Session W L) → IsDocumented p → IsSteady p → Protected p s → Step p s t → Protected p t
  Step-Protected s _ d steady protected (locks_shared unlocked empty) =
      j_lock-Protected_shared p s d protected unlocked empty
  Step-Protected s _ d steady protected (locks_beyond level lock_type at reads high empty) =
      j_lock-Protected_beyond p lock_type s d steady protected empty high
  Step-Protected s _ d steady protected (unlocks succeeds) =
      j_unlock-Protected p s protected succeeds
  Step-Protected s _ d steady protected (downgrades level at reads) =
      j_unlock-Protected_shared p level s protected at reads
  Step-Protected s _ d steady protected (runs_read e) = retry_lock_read-Protected p s d protected e
  Step-Protected s _ d steady protected (runs_write e) =
      retry_lock_write-Protected p s d protected e
  Step-Protected s _ d steady protected (runs_upgrade e) =
      retry_upgrade-Protected p s d steady protected

  Run-Protected :
      (s t : Session W L) → IsDocumented p → IsSteady p → Protected p s → Run p s t → Protected p t
  Run-Protected s _ d steady protected starts = protected
  Run-Protected s u d steady protected (goes_on {t} run step) =
      Step-Protected t u d steady (Run-Protected s t d steady protected run) step

  -- The isolation that a file at a level has.
  pub data IsShielded (t : Session W L) : ℕ → Type 0 where
    unlocked : IsShielded t 0
    reads : (mode : Isolation) → IsIsolated p (some mode) t → IsShielded t 1
    writes : (level : ℕ) → 2 ≤ level → IsIsolated p (some for_write) t → IsShielded t level

  isolated-mode :
      (state : Option Isolation) → state ≢ none → (mode : Isolation) × (state ≡ some mode)
  isolated-mode none h = absurd (h refl)
  isolated-mode (some mode) h = (mode, refl)

  shield :
      (level : ℕ) (t : Session W L)
      → (protected : Protected p t) → protected.level ≡ level
      → IsShielded t level
  shield zero t protected e = unlocked
  shield (suc zero) t protected e =
      let (mode, isolated) =
        isolated-mode (p.isolation_state protected.ahead) (protected.reads (omega (arith, e))) in
      reads mode (protected.ahead, protected.has, isolated)
  shield (suc (suc n)) t protected e =
      writes (suc (suc n)) (omega arith)
        (protected.ahead, protected.has, protected.writes (omega (arith, e)))

  -- With a write-ahead that is as documented and whose upgrades that fail leave its isolation: from an
  -- unlocked file with nothing queued and no result of a retry, however SHARED is requested of the unlocked
  -- file and more of the locked one, each with nothing queued, and unlocks that succeed, downgrades to SHARED
  -- and the queued operations follow, a file at SHARED or beyond is isolated, and at RESERVED or beyond it
  -- is isolated for writing.
  pub Run-IsShielded :
      (s t : Session W L) (w : W) (level : ℕ)
      → IsDocumented p
      → IsSteady p
      → s.file.write_ahead ≡ some w
      → s.file.lock_state ≡ some sqlite_lock_none
      → s.file.retry_result ≡ no_result
      → s.queue ≡ []
      → Run p s t
      → t.file.lock_state ≡ some level
      → IsShielded t level
  Run-IsShielded s t w level d steady has none_held result empty run at =
      let protected =
        Run-Protected s t d steady
          (record {
            ahead = w;
            has = has;
            level = 0;
            at_level = none_held;
            reads = λ h. absurd (omega (arith, h));
            writes = λ h. absurd (omega (arith, h));
            result = λ d. absurd cc;
            waiting = inl empty;
          })
          run in
      shield level t protected cc
