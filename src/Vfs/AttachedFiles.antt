-- ===== src/Vfs/AttachedFiles.antt =====
-- jLock and jUnlock of attached databases (src/MemoryWriteAheadVFS.ts).
use memory_write_ahead_vfs.Base.{
  ℕ, true, none, some, List, ◌≡◌, refl, ap, ◌∙◌, get_elem?, get_elem?-set,
}
use memory_write_ahead_vfs.SharedFile.{SharedFile, TransactionWords}
use memory_write_ahead_vfs.AttachedLock.Laws.{IsReady}
use memory_write_ahead_vfs.Vfs.{
  Platform, no_result, Session, after, catch, sqlite_lock_none, sqlite_lock_shared, is_main_db,
}
use memory_write_ahead_vfs.Vfs.Locking.{
  lock_error, words_of, words_at, store_words, store_in, attached_of, try_attached, grant_attached,
  lock_attached, j_lock,
}

pub words-store :
    (i : ℕ) (files : List SharedFile) (w : TransactionWords) (f : SharedFile)
    → get_elem? files i ≡ some f
    → words_at (some i) (store_words (some i) w files) ≡ w
words-store i files w f e =
    ap (λ o. words_of (get_elem? (store_in i o w files) i)) e
    ∙ ap words_of
        (get_elem?-set files i (record f { meta = record (f.meta) { transaction = w } }) e)

module _ {W L : Type 0} where
  -- An attached database that is unlocked and has what its lock needs.
  pub record IsAttached (i : ℕ) (s : Session W L) : Type 0 where
    pub main : is_main_db s.file ≡ true
    pub no_write_ahead : s.file.write_ahead ≡ none
    pub no_retry : s.file.retry_result ≡ no_result
    pub unlocked : s.file.lock_state ≡ some sqlite_lock_none
    pub shared : s.file.shared_file ≡ some i
    pub ready : IsReady (attached_of s).file

  module _ (p : Platform W L) where
    pub j_lock-attached :
        {i : ℕ} (s : Session W L)
        → IsAttached i s
        → j_lock p sqlite_lock_shared s
          ≡ catch lock_error (after (try_attached p s) (grant_attached p sqlite_lock_shared))
    unfolding j_lock lock_attached
    j_lock-attached s a = rw (a.main, a.no_write_ahead, a.unlocked, a.no_retry) refl
