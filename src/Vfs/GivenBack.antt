-- ===== src/Vfs/GivenBack.antt =====
-- An attached database locked and unlocked again (src/MemoryWriteAheadVFS.ts): jLock and jUnlock with
-- nobody in between.
use memory_write_ahead_vfs.Base.{
  ℕ, true, false, some, List, pos, eqb_ℤ, ok, ◌≡◌, refl, sym, ap, ap₂, ◌∙◌, get_elem?,
  get_elem?-set,
}
use mathlib.Core.Path.{subst}
use memory_write_ahead_vfs.SharedFile.{SharedFile, TransactionWords}
use memory_write_ahead_vfs.AttachedLock.{
  Attached, try_lock_attached_database, release_attached_database_lock, with_held,
}
use memory_write_ahead_vfs.AttachedLock.Laws.{
  nobody, try_lock-nobody, try_lock-release, locked_words,
}
use memory_write_ahead_vfs.Vfs.{
  Platform, Session, after, catch, sqlite_ok, sqlite_lock_none, sqlite_lock_shared,
}
use memory_write_ahead_vfs.Vfs.Locking.{
  lock_error, words_of, words_at, store_words, store_in, attached_of, put_attached, attached_result,
  try_attached, grant_attached, j_lock, j_unlock, grant, set_level, without_hint,
}
use memory_write_ahead_vfs.Vfs.AttachedFiles.{words-store, IsAttached, j_lock-attached}

elem-store :
    (i : ℕ) (files : List SharedFile) (w : TransactionWords) (f : SharedFile)
    → get_elem? files i ≡ some f
    → get_elem? (store_words (some i) w files) i
      ≡ some (record f { meta = record (f.meta) { transaction = w } })
elem-store i files w f e =
    ap (λ o. get_elem? (store_in i o w files) i) e
    ∙ get_elem?-set files i (record f { meta = record (f.meta) { transaction = w } }) e

module _ {W L : Type 0} (p : Platform W L) where
  abbrev locked_of : Session W L → Attached
  locked_of s = record {
    file = with_held true (attached_of s).file;
    words = locked_words (attached_of s).file (attached_of s).words;
  }

  abbrev granted_of : Session W L → Session W L
  granted_of s = (grant sqlite_lock_shared (put_attached (locked_of s) s)).1

  IsFree : Session W L → Type 0
  IsFree s =
      (eqb_ℤ (attached_of s).words.abandoned_transaction (pos 0) ≡ true)
      × ((attached_of s).words.transaction_lock ≡ pos 0)

  free-try :
      {i : ℕ} (s : Session W L)
      → IsAttached i s
      → IsFree s
      → try_lock_attached_database nobody (attached_of s) ≡ (ok true, locked_of s)
  unfolding IsFree
  free-try s a (trusted, free) =
      try_lock-nobody (attached_of s).file (attached_of s).words a.ready
      ∙ rw (trusted, ap (λ n. eqb_ℤ n (pos 0)) free) refl

  free-granted :
      {i : ℕ} (s : Session W L)
      → p.meanwhile ≡ nobody
      → IsAttached i s
      → IsFree s
      → j_lock p sqlite_lock_shared s ≡ (sqlite_ok, granted_of s)
  unfolding try_attached
  free-granted s alone a free =
      j_lock-attached p s a
      ∙ ap
          (λ out. catch lock_error (
            after (attached_result out.0, put_attached out.1 s)
              (grant_attached p sqlite_lock_shared)))
          (ap (λ m. try_lock_attached_database m (attached_of s)) alone ∙ free-try s a free)

  attached_of-granted_of :
      {i : ℕ} (s : Session W L) (f : SharedFile)
      → IsAttached i s
      → get_elem? s.files i ≡ some f
      → attached_of (granted_of s) ≡ locked_of s
  attached_of-granted_of {i} s f a e =
      ap (λ w. record { file = (locked_of s).file; words = w })
        (ap (λ j. words_at j (store_words j (locked_of s).words s.files)) a.shared
          ∙ words-store i s.files (locked_of s).words f e)

  abbrev released_of : Session W L → Attached
  released_of s = record {
    file = (attached_of s).file;
    words = record ((attached_of s).words) { transaction_lock_runtime_owner = pos 0 };
  }

  released-released_of :
      {i : ℕ} (s : Session W L) (f : SharedFile)
      → p.meanwhile ≡ nobody
      → IsAttached i s
      → IsFree s
      → get_elem? s.files i ≡ some f
      → release_attached_database_lock p.meanwhile (attached_of (granted_of s)) ≡ released_of s
  unfolding IsFree
  released-released_of s f alone a free e =
      ap₂ (λ m x. release_attached_database_lock m x) alone
        (attached_of-granted_of s f a e ∙ sym (ap (λ x. x.1) (free-try s a free)))
      ∙ try_lock-release (attached_of s).file (attached_of s).words a.ready free.0 free.1

  abbrev unlocked_of : Session W L → Session W L
  unlocked_of s =
      (set_level sqlite_lock_none (without_hint (put_attached (released_of s) (granted_of s)))).1

  granted-unlocked :
      {i : ℕ} (s : Session W L) (f : SharedFile)
      → p.meanwhile ≡ nobody
      → IsAttached i s
      → IsFree s
      → get_elem? s.files i ≡ some f
      → j_unlock p sqlite_lock_none (granted_of s) ≡ (sqlite_ok, unlocked_of s)
  unfolding j_unlock
  granted-unlocked s f alone a free e =
      rw (a.main, a.no_write_ahead) refl
      ∙ ap
          (λ x. (
            sqlite_ok,
            (set_level sqlite_lock_none (without_hint (put_attached x (granted_of s)))).1,
          ))
          (released-released_of s f alone a free e)

  words-unlocked_of :
      {i : ℕ} (s : Session W L) (f : SharedFile)
      → IsAttached i s
      → get_elem? s.files i ≡ some f
      → words_at (some i) (unlocked_of s).files ≡ (released_of s).words
  words-unlocked_of {i} s f a e =
      let locked = (locked_of s).words in
      let released = (released_of s).words in
      ap (λ j. words_at (some i) (store_words j released (store_words j locked s.files))) a.shared
      ∙ words-store i (store_words (some i) locked s.files) released
          (record f { meta = record (f.meta) { transaction = locked } })
          (elem-store i s.files locked f e)

  -- The outcomes of a lock and of the unlock after it, and the slots in the end.
  abbrev pub IsGivenBack : ℕ → TransactionWords → ℕ × Session W L → ℕ × Session W L → Type 0
  IsGivenBack i before lock unlock =
      (lock.0 ≡ sqlite_ok)
      × (unlock.0 ≡ sqlite_ok)
      × (lock.1.file.lock_state ≡ some sqlite_lock_shared)
      × (lock.1.file.attached_transaction_lock_held ≡ true)
      × (unlock.1.file.lock_state ≡ some sqlite_lock_none)
      × (unlock.1.file.attached_transaction_lock_held ≡ false)
      × (words_at (some i) unlock.1.files
          ≡ record before { transaction_lock_runtime_owner = pos 0 })

  -- With nobody in between, SHARED of a free and trusted attached database is granted, and the unlock gives
  -- it back: the slots are as they were, but for the runtime owner, which is 0.
  pub j_unlock-j_lock :
      {i : ℕ} (s : Session W L) (f : SharedFile)
      → p.meanwhile ≡ nobody
      → IsAttached i s
      → get_elem? s.files i ≡ some f
      → eqb_ℤ f.meta.transaction.abandoned_transaction (pos 0) ≡ true
      → f.meta.transaction.transaction_lock ≡ pos 0
      → IsGivenBack i f.meta.transaction
          (j_lock p sqlite_lock_shared s)
          (j_unlock p sqlite_lock_none (j_lock p sqlite_lock_shared s).1)
  unfolding IsFree
  j_unlock-j_lock {i} s f alone a e trusted free =
      let here : words_at s.file.shared_file s.files ≡ f.meta.transaction =
        ap (λ j. words_at j s.files) a.shared ∙ ap words_of e in
      let is_free : IsFree s = (
        ap (λ w. eqb_ℤ w.abandoned_transaction (pos 0)) here ∙ trusted,
        ap (λ w. w.transaction_lock) here ∙ free,
      ) in
      let locks = free-granted s alone a is_free in
      let unlocks : j_unlock p sqlite_lock_none (j_lock p sqlite_lock_shared s).1
          ≡ (sqlite_ok, unlocked_of s) =
        ap (λ x. j_unlock p sqlite_lock_none x.1) locks ∙ granted-unlocked s f alone a is_free e in
      subst
        (λ x.
          IsGivenBack i f.meta.transaction x
            (j_unlock p sqlite_lock_none (j_lock p sqlite_lock_shared s).1))
        (sym locks)
        (subst (λ x. IsGivenBack i f.meta.transaction (sqlite_ok, granted_of s) x) (sym unlocks)
          (
            refl,
            refl,
            refl,
            refl,
            refl,
            a.ready.0,
            words-unlocked_of s f a e
                ∙ ap {A = TransactionWords}
                    (λ w. record w { transaction_lock_runtime_owner = pos 0 }) here,
          ))
