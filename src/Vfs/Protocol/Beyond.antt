-- ===== src/Vfs/Protocol/Beyond.antt =====
-- A request for RESERVED or beyond keeps the invariant of the lock protocol (src/MemoryWriteAheadVFS.ts).
use memory_write_ahead_vfs.Base.{
  ℕ, ◌≤◌, Bool, true, false, Option, none, some, List, [], ◌∷◌, ◌++◌, Result, ok, err, ◌≡◌, ◌≢◌,
  inl, inr, refl, sym, ap, ◌∙◌, le→leb,
}
use mathlib.Core.Path.{subst}
use memory_write_ahead_vfs.SharedFile.{SharedFile}
use memory_write_ahead_vfs.Vfs.{
  VfsError, Isolation, for_read, for_write, Platform, exclusive, RetryState, no_result, done,
  rejected, retry_upgrade, Session, after, catch, put_effect, on_write_ahead,
}
use memory_write_ahead_vfs.Vfs.Locking.{
  lock_error, lock_isolated, lock_reserved, lock_from, upgrade_if_held, finish_upgrade,
  on_write_lock, raise_retry_error, is_level, j_lock,
}
use memory_write_ahead_vfs.Vfs.Outcomes.{IsDocumented, &&-false}
use memory_write_ahead_vfs.Vfs.Retried.{j_lock-primary, not_shared}
use memory_write_ahead_vfs.Vfs.Protocol.{IsSteady, Protected}
use memory_write_ahead_vfs.Vfs.Protocol.Shared.{granted-Protected}

cons_not_nil : {A : Type 0} (x : A) (xs : List A) → xs ++ x ∷ [] ≢ []
cons_not_nil x [] e = absurd cc
cons_not_nil x (y ∷ ys) e = absurd cc

pub not_true : {x : Result VfsError Bool} → x ≡ ok false → x ≢ ok true
not_true e h = absurd cc

pub threw : {x : Result VfsError Bool} {e : VfsError} → x ≡ err e → x ≢ ok true
threw e h = absurd cc

-- The isolation is enough for the level.
abbrev pub Fits : Option Isolation → ℕ → Type 0
Fits isolation level = (1 ≤ level → isolation ≢ none) × (2 ≤ level → isolation ≡ some for_write)

module _ {W L : Type 0} (p : Platform W L) where
  -- A file with a level and an isolation that fit, with nothing queued.
  pub record IsSettledAt (isolation : Option Isolation) (level : ℕ) (t : Session W L) : Type 0 where
    pub fits : Fits isolation level
    pub at_level : t.file.lock_state ≡ some level
    pub empty : t.queue ≡ []
    pub result : t.file.retry_result ≡ done → isolation ≢ none

  pub settled-Protected :
      (isolation : Option Isolation) (level : ℕ) (t : Session W L) (w : W)
      → IsSettledAt isolation level t
      → t.file.write_ahead ≡ some w
      → p.isolation_state w ≡ isolation
      → Protected p t
  settled-Protected isolation level t w at has same = record {
    ahead = w;
    has = has;
    level = level;
    at_level = at.at_level;
    reads = λ h e. at.fits.0 h (sym same ∙ e);
    writes = λ h. same ∙ at.fits.1 h;
    result = λ d _ e. at.result d (sym same ∙ e);
    waiting = inl at.empty;
  }

  -- The same with a level that is new, or with another result.
  with_lock-IsSettledAt :
      (isolation : Option Isolation) (level : ℕ) (write_lock : Option L) (t : Session W L)
      → IsSettledAt isolation level t
      → IsSettledAt isolation level
          (record t { file = record (t.file) { write_lock = write_lock } })
  with_lock-IsSettledAt isolation level write_lock t at = record {
    fits = at.fits;
    at_level = at.at_level;
    empty = at.empty;
    result = at.result;
  }

  abbrev pub Upgrades : Option Isolation → Result VfsError Bool × (W × List SharedFile) → Type 0
  Upgrades isolation out =
      (out.0 ≡ ok true → p.isolation_state out.1.0 ≡ some for_write)
      × (out.0 ≢ ok true → p.isolation_state out.1.0 ≡ isolation)

  finish_upgrade-Protected :
      (lock_type : ℕ) (isolation : Option Isolation) (level : ℕ)
      (out : Result VfsError Bool × (W × List SharedFile)) (t : Session W L)
      → IsSettledAt isolation level t
      → Upgrades isolation out
      → Protected p (catch lock_error (after (put_effect out t) (finish_upgrade p lock_type))).1
  finish_upgrade-Protected lock_type isolation level (err e, w) t at upgrades =
      settled-Protected isolation level _ (w.0)
        (record { fits = at.fits; at_level = at.at_level; empty = at.empty; result = at.result })
        refl (upgrades.1 (threw refl))
  finish_upgrade-Protected lock_type isolation level (ok false, w) t at upgrades =
      settled-Protected isolation level _ (w.0)
        (record { fits = at.fits; at_level = at.at_level; empty = at.empty; result = at.result })
        refl (upgrades.1 (not_true refl))
  finish_upgrade-Protected lock_type isolation level (ok true, w) t at upgrades =
      granted-Protected p lock_type (put_effect {A = Bool} (ok true, w) t).1 (w.0) for_write refl
        at.empty (upgrades.0 refl) (λ h. refl)

  pub try_upgrade_read_isolation_to_write-Upgrades :
      (w : W × List SharedFile)
      → IsDocumented p
      → IsSteady p
      → Upgrades (p.isolation_state w.0) (p.try_upgrade_read_isolation_to_write w)
  try_upgrade_read_isolation_to_write-Upgrades w d steady = (d.upgrades w, steady.stays w)

  upgrade_if_held-Protected :
      (lock_type level : ℕ) (held : Bool) (t : Session W L) (w : W)
      → IsDocumented p
      → IsSteady p
      → t.file.write_ahead ≡ some w
      → IsSettledAt (p.isolation_state w) level t
      → Protected p (catch lock_error (upgrade_if_held p lock_type held t)).1
  upgrade_if_held-Protected lock_type level false t w d steady has at = record {
    ahead = w;
    has = has;
    level = level;
    at_level = at.at_level;
    reads = at.fits.0;
    writes = at.fits.1;
    result = λ d e. absurd (cons_not_nil retry_upgrade t.queue e);
    waiting = inr (inl (ap (λ q. q ++ retry_upgrade ∷ []) at.empty));
  }
  upgrade_if_held-Protected lock_type level true t w d steady has at =
      let run : upgrade_if_held p lock_type true t
          ≡ after (put_effect (p.try_upgrade_read_isolation_to_write (w, t.files)) t)
              (finish_upgrade p lock_type) =
        ap
          (λ o.
            after (on_write_ahead false p.try_upgrade_read_isolation_to_write o t)
              (finish_upgrade p lock_type))
          has in
      subst (λ out. Protected p (catch lock_error out).1) (sym run)
        (finish_upgrade-Protected lock_type (p.isolation_state w) level _ t at
          (try_upgrade_read_isolation_to_write-Upgrades (w, t.files) d steady))

  by_lock-Protected :
      (lock_type level : ℕ) (lock : Option L) (t : Session W L) (w : W)
      → IsDocumented p
      → IsSteady p
      → t.file.write_ahead ≡ some w
      → IsSettledAt (p.isolation_state w) level t
      → Protected p
          (catch lock_error (
            after
              (on_write_lock (p.acquire_if_held exclusive) lock t)
              (upgrade_if_held p lock_type))).1
  by_lock-Protected lock_type level none t w d steady has at =
      upgrade_if_held-Protected lock_type level false t w d steady has at
  by_lock-Protected lock_type level (some lock) t w d steady has at =
      upgrade_if_held-Protected lock_type level _ _ w d steady has
        (with_lock-IsSettledAt (p.isolation_state w) level (some _) t at)

  lock_from-Protected :
      (lock_type level : ℕ) (isolation : Option Isolation) (t : Session W L) (w : W)
      → IsDocumented p
      → IsSteady p
      → t.file.write_ahead ≡ some w
      → p.isolation_state w ≡ isolation
      → IsSettledAt (p.isolation_state w) level t
      → Protected p (catch lock_error (lock_from p lock_type isolation t)).1
  lock_from-Protected lock_type level none t w d steady has same at =
      upgrade_if_held-Protected lock_type level false t w d steady has at
  lock_from-Protected lock_type level (some for_read) t w d steady has same at =
      by_lock-Protected lock_type level t.file.write_lock t w d steady has at
  lock_from-Protected lock_type level (some for_write) t w d steady has same at =
      granted-Protected p lock_type t w for_write has at.empty same (λ h. refl)

  lock_reserved-Protected :
      (lock_type : ℕ) (result : RetryState) (s : Session W L)
      → IsDocumented p
      → IsSteady p
      → (protected : Protected p s) → s.queue ≡ []
      → s.file.retry_result ≡ result
      → Protected p
          (catch lock_error (
            after
              (raise_retry_error result s)
              (λ _. lock_from p lock_type (p.isolation_state protected.ahead)))).1
  lock_reserved-Protected lock_type no_result s d steady protected empty e =
      lock_from-Protected lock_type protected.level _ s protected.ahead d steady protected.has refl
        (record {
          fits = (protected.reads, protected.writes);
          at_level = protected.at_level;
          empty = empty;
          result = λ h. protected.result h empty;
        })
  lock_reserved-Protected lock_type done s d steady protected empty e =
      lock_from-Protected lock_type protected.level _ s protected.ahead d steady protected.has refl
        (record {
          fits = (protected.reads, protected.writes);
          at_level = protected.at_level;
          empty = empty;
          result = λ h. protected.result h empty;
        })
  lock_reserved-Protected lock_type (rejected x) s d steady protected empty e =
      settled-Protected (p.isolation_state protected.ahead) protected.level _ protected.ahead
        (record {
          fits = (protected.reads, protected.writes);
          at_level = protected.at_level;
          empty = empty;
          result = λ h. absurd cc;
        })
        protected.has refl

  pub j_lock-Protected_beyond :
      (lock_type : ℕ) (s : Session W L)
      → IsDocumented p
      → IsSteady p
      → Protected p s
      → s.queue ≡ []
      → 2 ≤ lock_type
      → Protected p (j_lock p lock_type s).1
  unfolding lock_isolated lock_reserved
  j_lock-Protected_beyond lock_type s d steady protected empty high =
      let w = protected.ahead in
      let run : j_lock p lock_type s ≡ catch lock_error (lock_reserved p lock_type w s) =
        j_lock-primary p lock_type s w protected.has
        ∙ rw
            (
              not_shared p lock_type high,
              &&-false (is_level s.file.lock_state 0),
              protected.has,
              le→leb 2 lock_type high,
            )
            refl in
      subst (λ out. Protected p out.1) (sym run)
        (lock_reserved-Protected lock_type s.file.retry_result s d steady protected empty refl)
