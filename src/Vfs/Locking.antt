-- ===== src/Vfs/Locking.antt =====
-- The lock handlers (src/MemoryWriteAheadVFS.ts): jLock and jUnlock.
use memory_write_ahead_vfs.Base.{
  ℕ, Bool, true, false, ◌&&◌, not, Option, none, some, List, ◌==◌, leb, Result, ok, err, get_elem?,
  set, if◌then◌else◌,
}
use memory_write_ahead_vfs.SharedFile.{SharedFile, TransactionWords, no_transaction}
use memory_write_ahead_vfs.AttachedLock.{
  AttachedError, Attached, try_lock_attached_database, release_attached_database_lock,
}
use memory_write_ahead_vfs.Vfs.{
  sqlite_ok, sqlite_busy, sqlite_ioerr_lock, sqlite_ioerr_unlock, sqlite_lock_none,
  sqlite_lock_shared, sqlite_lock_reserved, VfsError, stale_snapshot, attached_error, is_busy,
  Isolation, for_read, for_write, shared, exclusive, Platform, LockingMode, exclusive_mode,
  normal_mode, WriteHint, LazyMode, lazy_none, lazy_read, lazy_write, lazy_readwrite, RetryState,
  no_result, done, rejected, retry_lock_read, retry_lock_write, retry_lock_attached, retry_upgrade,
  Session, Action, after, enqueue, with_retry, is_main_db, on_write_ahead, catch,
}

abbrev pub is_absent : {A : Type 0} → Option A → Bool
is_absent none = true
is_absent (some a) = false

abbrev pub is_level : Option ℕ → ℕ → Bool
is_level none level = false
is_level (some n) level = n == level

abbrev pub words_of : Option SharedFile → TransactionWords
words_of none = no_transaction
words_of (some f) = f.meta.transaction

-- The transaction slots of the file's shared file; a file without one has none.
abbrev pub words_at : Option ℕ → List SharedFile → TransactionWords
words_at none files = no_transaction
words_at (some i) files = words_of (get_elem? files i)

abbrev pub store_in : ℕ → Option SharedFile → TransactionWords → List SharedFile → List SharedFile
store_in i none w files = files
store_in i (some f) w files = set files i (record f { meta = record (f.meta) { transaction = w } })

abbrev pub store_words : Option ℕ → TransactionWords → List SharedFile → List SharedFile
store_words none w files = files
store_words (some i) w files = store_in i (get_elem? files i) w files

abbrev pub attached_result : Result AttachedError Bool → Result VfsError Bool
attached_result (err e) = err (attached_error e)
attached_result (ok b) = ok b

abbrev pub change : {L : Type 0} → (L → L) → Option L → Option L
change g none = none
change g (some lock) = some (g lock)

abbrev held_by : {L : Type 0} → Bool × L → Result VfsError Bool × L
held_by out = (ok (out.0), out.1)

abbrev pub lock_error : VfsError → ℕ
lock_error e = if is_busy e then sqlite_busy else sqlite_ioerr_lock

-- A result, {} or an error, keeps the locks until a later jLock has taken it.
abbrev pub has_result : RetryState → Bool
has_result no_result = false
has_result done = true
has_result (rejected e) = true

module _ {W L : Type 0} where
  abbrev pub attached_of : Session W L → Attached
  attached_of s = record {
    file = record {
      attached_transaction_lock_held = s.file.attached_transaction_lock_held;
      has_shared_file = not (is_absent s.file.shared_file);
      attached_transaction_lock_owner_id = s.file.attached_transaction_lock_owner_id;
      attached_transaction_lock_runtime_owner_id =
          s.file.attached_transaction_lock_runtime_owner_id;
    };
    words = words_at s.file.shared_file s.files;
  }

  abbrev pub put_attached : Attached → Session W L → Session W L
  put_attached a s = record s {
    file = record (s.file) {
      attached_transaction_lock_held = a.file.attached_transaction_lock_held;
    };
    files = store_words s.file.shared_file a.words s.files;
  }

  abbrev pub put_write_lock : {A : Type 0} → A × L → Session W L → A × Session W L
  put_write_lock out s = (out.0, record s { file = record (s.file) { write_lock = some (out.1) } })

  abbrev pub put_read_lock : {A : Type 0} → A × L → Session W L → A × Session W L
  put_read_lock out s = (out.0, record s { file = record (s.file) { read_lock = some (out.1) } })

  -- `lock?.call()`: a lock that is missing gives undefined.
  abbrev pub on_write_lock : (L → Bool × L) → Option L → Action W L Bool
  on_write_lock call none s = (ok false, s)
  on_write_lock call (some lock) s = put_write_lock (held_by (call lock)) s

  abbrev pub on_read_lock : (L → Bool × L) → Option L → Action W L Bool
  on_read_lock call none s = (ok false, s)
  on_read_lock call (some lock) s = put_read_lock (held_by (call lock)) s

  -- The locks' calls that return nothing.
  abbrev pub with_locks : (L → L) → (L → L) → Session W L → Session W L
  with_locks on_write on_read s = record s {
    file = record (s.file) {
      write_lock = change on_write s.file.write_lock;
      read_lock = change on_read s.file.read_lock;
    };
  }

  -- An error that a retry has left is thrown once.
  abbrev pub raise_retry_error : RetryState → Action W L (Unit {0})
  raise_retry_error (rejected e) s = (err e, with_retry no_result s)
  raise_retry_error no_result s = (ok tt, s)
  raise_retry_error done s = (ok tt, s)

  abbrev pub set_level : ℕ → Action W L ℕ
  set_level lock_type s =
      (ok sqlite_ok, record s { file = record (s.file) { lock_state = some lock_type } })

  abbrev pub grant : ℕ → Action W L ℕ
  grant lock_type s = set_level lock_type (with_retry no_result s)

  abbrev pub without_hint : Session W L → Session W L
  without_hint s = record s { file = record (s.file) { write_hint = none } }

  module _ (p : Platform W L) where
    unfoldable pub try_attached : Action W L Bool
    unfolding try_lock_attached_database
    try_attached s =
        let out = try_lock_attached_database p.meanwhile (attached_of s) in
        (attached_result out.0, put_attached out.1 s)

    abbrev pub grant_attached : ℕ → Bool → Action W L ℕ
    grant_attached lock_type true s = grant lock_type s
    grant_attached lock_type false s =
        (ok sqlite_busy, enqueue retry_lock_attached (with_retry done s))

    -- A main database without a write-ahead is an attached one.
    unfoldable pub lock_attached : ℕ → Action W L ℕ
    unfolding try_attached
    lock_attached lock_type s =
        if is_level s.file.lock_state sqlite_lock_none && lock_type == sqlite_lock_shared
        then after (raise_retry_error s.file.retry_result s)
            (λ _ t. after (try_attached t) (grant_attached lock_type))
        else set_level lock_type s

    -- `{}` is left in `retryResult` by the queued operation.
    abbrev pub isolate_writer : ℕ → Bool → Action W L ℕ
    isolate_writer lock_type false s = (ok sqlite_busy, enqueue retry_lock_write s)
    isolate_writer lock_type true s =
        after (on_write_ahead tt p.isolate_for_write s.file.write_ahead s) (λ _. grant lock_type)

    abbrev pub isolate_reader : ℕ → Bool → Action W L ℕ
    isolate_reader lock_type false s = (ok sqlite_busy, enqueue retry_lock_read s)
    isolate_reader lock_type true s =
        after (on_write_ahead tt p.isolate_for_read s.file.write_ahead s) (λ _. grant lock_type)

    abbrev pub lock_by_hint : ℕ → Option WriteHint → Action W L ℕ
    lock_by_hint lock_type (some hint) s =
        after (on_write_lock (p.acquire_if_held exclusive) s.file.write_lock s)
          (isolate_writer lock_type)
    lock_by_hint lock_type none s =
        after (on_read_lock (p.acquire_if_held shared) s.file.read_lock s)
          (isolate_reader lock_type)

    abbrev pub lock_by_mode : ℕ → LockingMode → Action W L ℕ
    lock_by_mode lock_type exclusive_mode s =
        (ok sqlite_busy, enqueue retry_lock_write (with_retry done s))
    lock_by_mode lock_type normal_mode s = lock_by_hint lock_type s.file.write_hint s

    unfoldable pub lock_shared : ℕ → RetryState → Action W L ℕ
    lock_shared lock_type no_result s = lock_by_mode lock_type s.file.locking_mode s
    lock_shared lock_type (rejected e) s = (err e, with_retry no_result s)
    lock_shared lock_type done s = grant lock_type s

    abbrev pub finish_upgrade : ℕ → Bool → Action W L ℕ
    finish_upgrade lock_type true s = grant lock_type s
    finish_upgrade lock_type false s = (err stale_snapshot, with_locks p.release (λ l. l) s)

    abbrev pub upgrade_if_held : ℕ → Bool → Action W L ℕ
    upgrade_if_held lock_type true s =
        after (on_write_ahead false p.try_upgrade_read_isolation_to_write s.file.write_ahead s)
          (finish_upgrade lock_type)
    upgrade_if_held lock_type false s = (ok sqlite_busy, enqueue retry_upgrade (with_retry done s))

    abbrev pub lock_from : ℕ → Option Isolation → Action W L ℕ
    lock_from lock_type (some for_write) s = grant lock_type s
    lock_from lock_type (some for_read) s =
        after (on_write_lock (p.acquire_if_held exclusive) s.file.write_lock s)
          (upgrade_if_held lock_type)
    lock_from lock_type none s = upgrade_if_held lock_type false s

    unfoldable pub lock_reserved : ℕ → W → Action W L ℕ
    lock_reserved lock_type w s =
        after (raise_retry_error s.file.retry_result s)
          (λ _. lock_from lock_type (p.isolation_state w))

    abbrev pub lock_beyond : ℕ → Option W → Action W L ℕ
    lock_beyond lock_type none s = set_level lock_type s
    lock_beyond lock_type (some w) s =
        if leb sqlite_lock_reserved lock_type
        then lock_reserved lock_type w s
        else set_level lock_type s

    unfoldable pub lock_isolated : ℕ → Action W L ℕ
    unfolding lock_shared lock_reserved
    lock_isolated lock_type s =
        if is_level s.file.lock_state sqlite_lock_none && lock_type == sqlite_lock_shared
        then lock_shared lock_type s.file.retry_result s
        else lock_beyond lock_type s.file.write_ahead s

    -- jLock, of a file that is open.
    unfoldable pub j_lock : ℕ → Session W L → ℕ × Session W L
    unfolding lock_attached lock_isolated is_busy
    j_lock lock_type s = catch lock_error (
        if is_main_db s.file && is_absent s.file.write_ahead
        then lock_attached lock_type s
        else lock_isolated lock_type s)

    abbrev pub release_attached : Session W L → Session W L
    release_attached s = put_attached (release_attached_database_lock p.meanwhile (attached_of s)) s

    abbrev pub release_locks : Option LazyMode → Session W L → Session W L
    release_locks (some lazy_none) s = with_locks p.release p.release s
    release_locks (some lazy_read) s = with_locks p.release p.release_lazy s
    release_locks (some lazy_write) s = with_locks p.release_lazy p.release s
    release_locks (some lazy_readwrite) s = with_locks p.release_lazy p.release_lazy s
    release_locks none s = with_locks p.release_lazy p.release_lazy s

    abbrev pub unlock_all : Action W L ℕ
    unlock_all s =
        if is_main_db s.file && is_absent s.file.write_ahead
        then set_level sqlite_lock_none (without_hint (release_attached s))
        else after (on_write_ahead tt p.rejoin s.file.write_ahead s) (λ _ t.
          set_level sqlite_lock_none (without_hint (release_locks t.file.use_lazy_lock t)))

    unfoldable pub j_unlock : ℕ → Session W L → ℕ × Session W L
    unfolding release_attached_database_lock
    j_unlock lock_type s =
        catch (λ _. sqlite_ioerr_unlock)
          (if not (has_result s.file.retry_result) && lock_type == sqlite_lock_none
            then unlock_all s
            else set_level lock_type s)
