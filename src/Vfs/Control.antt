-- ===== src/Vfs/Control.antt =====
-- jFileControl (src/MemoryWriteAheadVFS.ts): the pragmas, and the operations on atomic writes,
-- synchronisation and overwriting. The tracing that `vfs_trace` switches is left out.
use Prim.Native.String.{String}
use memory_write_ahead_vfs.Base.{
  ℕ, Bool, true, false, ◌||◌, Option, none, some, ℤ, pos, negsuc, pos_part, is_positive, Result, ok,
  err, if◌then◌else◌,
}
use memory_write_ahead_vfs.Vfs.{
  Timeout, no_timeout, bad_timeout, timeout_ms, VfsError, bad_pragma, transaction_in_progress,
  write_ahead_missing, Platform, normal_mode, exclusive_mode, reserved_hint, exclusive_hint,
  LazyMode, lazy_none, lazy_read, lazy_write, lazy_readwrite, OpenFile, pending_checkpoint, Session,
  Action, after, enqueue, is_main_db, on_write_ahead, put_effect, sqlite_ok, sqlite_notfound,
  sqlite_ioerr,
}
use memory_write_ahead_vfs.Vfs.Io.{is_strict}
use memory_write_ahead_vfs.Vfs.PragmaText.{is_word, parse_int, accepted_page_size}

-- The text that a pragma answers with: a number, "NaN", or a mode of the lazy locks.
pub data Answer : Type 0 where
  number : ℤ → Answer
  not_a_number : Answer
  lazy_mode : LazyMode → Answer

abbrev pub Answered : Type 0
Answered = ℕ × Option Answer

pub data FileControl : Type 0 where
  pragma : (key : String) → (value : Option String) → FileControl
  begin_atomic_write commit_atomic_write rollback_atomic_write sync_control : FileControl
  overwrite_control other_control : FileControl

-- `a === word`, of a text that may be missing and is compared as it is or in lower case.
abbrev pub is_value : Option String → String → Bool
is_value none word = false
is_value (some text) word = is_word text word

abbrev pub as_given : Option String → String → Option String
as_given none default = some default
as_given (some text) default = some text

abbrev pub lazy_or_none : Option LazyMode → LazyMode
lazy_or_none none = lazy_none
lazy_or_none (some mode) = mode

abbrev pub timeout_of : Option ℤ → Timeout
timeout_of none = bad_timeout
timeout_of (some ms) = timeout_ms ms

-- `timeout ?? -1`
abbrev pub timeout_or_default : Timeout → Answer
timeout_or_default no_timeout = number (negsuc 0)
timeout_or_default bad_timeout = not_a_number
timeout_or_default (timeout_ms ms) = number ms

-- A page size is a number of a few bits, so that a negative one and NaN are refused.
abbrev pub page_size_of : Option ℕ → Option ℤ → Option ℕ
page_size_of old none = old
page_size_of old (some n) =
    if is_positive n
    then elim (accepted_page_size (pos_part n)) [ none ↦ old | some size ↦ some size ]
    else old

abbrev pub synchronous_of : Option ℕ → String → Option ℕ
synchronous_of old value =
    if is_word value "off" || is_word value "0"
    then some 0
    else if is_word value "normal" || is_word value "1"
    then some 1
    else if is_word value "full" || is_word value "2"
    then some 2
    else if is_word value "extra" || is_word value "3"
    then some 3
    else old

abbrev pub lazy_lock_of : Option LazyMode → String → Option LazyMode
lazy_lock_of old value =
    if is_word value "read"
    then some lazy_read
    else if is_word value "write"
    then some lazy_write
    else if is_word value "readwrite"
    then some lazy_readwrite
    else if is_word value "none"
    then some lazy_none
    else old

module _ {W L : Type 0} where
  abbrev pub not_found : Action W L Answered
  not_found s = (ok (sqlite_notfound, none), s)

  abbrev pub silent : Action W L Answered
  silent s = (ok (sqlite_ok, none), s)

  abbrev pub changing : (OpenFile W L → OpenFile W L) → Session W L → Session W L
  changing g s = record s { file = g s.file }

  -- requireWriteAhead
  abbrev pub require_write_ahead : Option W → Action W L W
  require_write_ahead none s = (err write_ahead_missing, s)
  require_write_ahead (some w) s = (ok w, s)

  abbrev pub answering : (W → Answer) → W → Action W L Answered
  answering answer w s = (ok (sqlite_ok, some (answer w)), s)

  abbrev pub setting : (W → W) → W → Action W L Answered
  setting g w s = not_found (changing (λ f. record f { write_ahead = some (g w) }) s)

  -- These two values are compared as they are; they have no letters.
  abbrev pub write_hint_pragma : Option String → Action W L Answered
  write_hint_pragma value s =
      if is_value value "1"
      then not_found (changing (λ f. record f { write_hint = some reserved_hint }) s)
      else if is_value value "2"
      then not_found (changing (λ f. record f { write_hint = some exclusive_hint }) s)
      else (err bad_pragma, s)

  abbrev pub busy_timeout_pragma : Option String → Action W L Answered
  busy_timeout_pragma (some value) s =
      silent (changing (λ f. record f { timeout = timeout_of (parse_int value) }) s)
  busy_timeout_pragma none s = (ok (sqlite_ok, some (timeout_or_default s.file.timeout)), s)

  abbrev pub locking_mode_pragma : Option String → Action W L Answered
  locking_mode_pragma value s =
      if is_value value "exclusive"
      then not_found (changing (λ f. record f { locking_mode = exclusive_mode }) s)
      else if is_value value "normal"
      then not_found (changing (λ f. record f { locking_mode = normal_mode }) s)
      else not_found s

  abbrev pub page_size_pragma : Option String → Action W L Answered
  page_size_pragma none s = not_found s
  page_size_pragma (some value) s =
      not_found
        (changing (λ f. record f { page_size = page_size_of f.page_size (parse_int value) }) s)

  abbrev pub synchronous_pragma : Option String → Action W L Answered
  synchronous_pragma none s = not_found s
  synchronous_pragma (some value) s =
      not_found (changing (λ f. record f { synchronous = synchronous_of f.synchronous value }) s)

  abbrev pub lazy_lock_answer : Action W L Answered
  lazy_lock_answer s = (ok (sqlite_ok, some (lazy_mode (lazy_or_none s.file.use_lazy_lock))), s)

  abbrev pub lazy_lock_pragma : Option String → Action W L Answered
  lazy_lock_pragma none s = lazy_lock_answer s
  lazy_lock_pragma (some value) s =
      lazy_lock_answer
        (changing (λ f. record f { use_lazy_lock = lazy_lock_of f.use_lazy_lock value }) s)

  module _ (p : Platform W L) where
    abbrev pub backstop_pragma : Option String → Action W L Answered
    backstop_pragma (some value) s = after (require_write_ahead s.file.write_ahead s) (λ w t.
        after (put_effect (p.set_backstop_interval (parse_int value) (w, t.files)) t) (λ _. silent))
    backstop_pragma none s =
        after (require_write_ahead s.file.write_ahead s)
          (answering (λ w. number (p.get_backstop_interval w)))

    abbrev pub journal_size_limit_pragma : Option String → Action W L Answered
    journal_size_limit_pragma none s = not_found s
    journal_size_limit_pragma (some value) s =
        after (require_write_ahead s.file.write_ahead s)
          (setting (p.set_journal_size_limit (parse_int value)))

    abbrev pub wal_autocheckpoint_pragma : Option String → Action W L Answered
    wal_autocheckpoint_pragma none s = not_found s
    wal_autocheckpoint_pragma (some value) s =
        after (require_write_ahead s.file.write_ahead s)
          (setting (p.set_auto_checkpoint (parse_int value)))

    abbrev pub is_pending : Option W → Bool
    is_pending none = false
    is_pending (some w) = p.is_transaction_pending w

    abbrev pub size_or_zero : Option W → ℕ
    size_or_zero none = 0
    size_or_zero (some w) = p.get_write_ahead_size w

    -- A value that is missing is 'passive'.
    abbrev pub queue_checkpoint : Option String → Action W L (Unit {0})
    queue_checkpoint value s =
        if is_value value "passive"
        then (ok tt, enqueue (pending_checkpoint true) s)
        else if is_value value "full" || (is_value value "restart" || is_value value "truncate")
        then if is_pending s.file.write_ahead
          then (err transaction_in_progress, s)
          else (ok tt, enqueue (pending_checkpoint false) s)
        else if is_value value "noop"
        then (ok tt, s)
        else (err bad_pragma, s)

    abbrev pub wal_checkpoint_pragma : Option String → Action W L Answered
    wal_checkpoint_pragma value s =
        after (queue_checkpoint (as_given value "passive") s)
          (λ _ t. (ok (sqlite_ok, some (number (pos (size_or_zero t.file.write_ahead)))), t))

    unfoldable pub pragma_control : String → Option String → Action W L Answered
    unfolding is_word parse_int accepted_page_size
    pragma_control key value s =
        if is_word key "experimental_pragma_20251114"
        then write_hint_pragma value s
        else if is_word key "backstop_interval"
        then backstop_pragma value s
        else if is_word key "busy_timeout"
        then busy_timeout_pragma value s
        else if is_word key "journal_size_limit"
        then journal_size_limit_pragma value s
        else if is_word key "locking_mode"
        then locking_mode_pragma value s
        else if is_word key "page_size"
        then page_size_pragma value s
        else if is_word key "synchronous"
        then synchronous_pragma value s
        else if is_word key "vfs_trace"
        then silent s
        else if is_word key "wal_autocheckpoint"
        then wal_autocheckpoint_pragma value s
        else if is_word key "wal_checkpoint"
        then wal_checkpoint_pragma value s
        else if is_word key "lazy_lock"
        then lazy_lock_pragma value s
        else not_found s

    abbrev pub commit_pending : Action W L (Unit {0})
    commit_pending s =
        if is_pending s.file.write_ahead
        then on_write_ahead tt p.commit s.file.write_ahead s
        else (ok tt, s)

    abbrev pub sync_main : Action W L Answered
    sync_main s = after (commit_pending s) (λ _ t.
        after (on_write_ahead tt (p.sync (is_strict t.file.synchronous)) t.file.write_ahead t)
          (λ _. not_found))

    abbrev pub control : FileControl → Action W L Answered
    control (pragma key value) s = pragma_control key value s
    control begin_atomic_write s = if is_main_db s.file then silent s else not_found s
    control commit_atomic_write s = if is_main_db s.file then silent s else not_found s
    control rollback_atomic_write s =
        if is_main_db s.file
        then after (on_write_ahead tt p.rollback s.file.write_ahead s) (λ _. silent)
        else not_found s
    control sync_control s = if is_main_db s.file then sync_main s else not_found s
    control overwrite_control s = not_found (changing (λ f. record f { overwrite = true }) s)
    control other_control s = not_found s

    -- The code, the answer of a pragma, and the session then.
    abbrev pub catch_control : Result VfsError Answered × Session W L → Answered × Session W L
    catch_control (err e, s) = ((sqlite_ioerr, none), record s { last_error = some e })
    catch_control (ok answered, s) = (answered, s)

    unfoldable pub j_file_control : FileControl → Session W L → Answered × Session W L
    unfolding pragma_control
    j_file_control op s = catch_control (control op s)
