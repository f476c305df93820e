-- ===== src/Vfs.antt =====
-- The open files of the VFS and what its handlers call (src/MemoryWriteAheadVFS.ts): the type
-- MemoryWriteAheadOpenFile, SQLite's codes, the errors that the handlers throw, and the objects of
-- third parties, WriteAhead and LazyLock, whose states are the types `W` and `L`.
pub mod Locking
mod Tests
mod FileTests
pub mod Retry
pub mod Outcomes
pub mod Granted
pub mod Retried
pub mod Requests
pub mod Unlocking
pub mod Rejections
pub mod AttachedFiles
pub mod GivenBack
pub mod Io
pub mod Files
pub mod OpenRetry
pub mod Opening
pub mod OneConnection
pub mod OpenLeak
pub mod TemporaryLife
pub mod Handlers
pub mod PrimaryOpen
pub mod Protocol
pub mod Closing
pub mod PragmaText
pub mod PageSizes
pub mod Control
pub mod Checkpoint
pub mod Checkpointing
use Prim.Native.String.{String}
use memory_write_ahead_vfs.Base.{
  ℕ, ◌/◌, ◌%◌, Bool, true, false, Option, none, some, List, [], ◌∷◌, ◌++◌, ℤ, ◌==◌, Result, ok, err,
  get_elem?, set, if◌then◌else◌,
}
use memory_write_ahead_vfs.SharedFile.{SharedFile, TransactionWords, FileError, LockWords}
use memory_write_ahead_vfs.AttachedLock.{
  AttachedError, missing_lock_state, quarantined, lost_claim, timed_out,
}
use memory_write_ahead_vfs.Lease.{LeaseError}
use memory_write_ahead_vfs.LocalFile.{LocalFile}
use memory_write_ahead_vfs.AccessHandle.{Acquisition}

-- Result codes and lock levels of SQLite.
abbrev pub sqlite_ok : ℕ
sqlite_ok = 0

abbrev pub sqlite_busy : ℕ
sqlite_busy = 5

abbrev pub sqlite_ioerr : ℕ
sqlite_ioerr = 10

abbrev pub sqlite_notfound : ℕ
sqlite_notfound = 12

abbrev pub sqlite_cantopen : ℕ
sqlite_cantopen = 14

abbrev pub sqlite_ioerr_read : ℕ
sqlite_ioerr_read = 266

abbrev pub sqlite_ioerr_short_read : ℕ
sqlite_ioerr_short_read = 522

abbrev pub sqlite_ioerr_write : ℕ
sqlite_ioerr_write = 778

abbrev pub sqlite_ioerr_fsync : ℕ
sqlite_ioerr_fsync = 1034

abbrev pub sqlite_ioerr_truncate : ℕ
sqlite_ioerr_truncate = 1546

abbrev pub sqlite_ioerr_fstat : ℕ
sqlite_ioerr_fstat = 1802

abbrev pub sqlite_ioerr_unlock : ℕ
sqlite_ioerr_unlock = 2058

abbrev pub sqlite_ioerr_lock : ℕ
sqlite_ioerr_lock = 3850

abbrev pub sqlite_ioerr_close : ℕ
sqlite_ioerr_close = 4106

abbrev pub sqlite_lock_none : ℕ
sqlite_lock_none = 0

abbrev pub sqlite_lock_shared : ℕ
sqlite_lock_shared = 1

abbrev pub sqlite_lock_reserved : ℕ
sqlite_lock_reserved = 2

abbrev pub sqlite_open_create : ℕ
sqlite_open_create = 4

abbrev pub sqlite_open_deleteonclose : ℕ
sqlite_open_deleteonclose = 8

abbrev pub sqlite_open_main_db : ℕ
sqlite_open_main_db = 256

abbrev pub sqlite_open_super_journal : ℕ
sqlite_open_super_journal = 16384

abbrev pub sqlite_open_wal : ℕ
sqlite_open_wal = 524288

-- `flags & bit`, for a power of two.
abbrev pub has_flag : ℕ → ℕ → Bool
has_flag flags bit = flags / bit % 2 == 1

-- What a handler may catch; the texts of the messages are left out.
pub data VfsError : Type 0 where
  lock_timed_out stale_snapshot write_ahead_missing bad_pragma transaction_in_progress : VfsError
  already_open file_missing runtime_owner_missing wal_is_internal : VfsError
  attached_error : AttachedError → VfsError
  lease_error : LeaseError → VfsError
  file_error : FileError → VfsError
  -- an error of a third party's object, and whether its name is TimeoutError
  foreign_error : Bool → VfsError

-- Whether the error's name is MemoryWriteAheadBusyError or TimeoutError.
unfoldable pub is_busy : VfsError → Bool
is_busy lock_timed_out = true
is_busy stale_snapshot = true
is_busy write_ahead_missing = false
is_busy bad_pragma = false
is_busy transaction_in_progress = false
is_busy already_open = false
is_busy file_missing = false
is_busy runtime_owner_missing = false
is_busy wal_is_internal = false
is_busy (attached_error missing_lock_state) = false
is_busy (attached_error quarantined) = true
is_busy (attached_error lost_claim) = false
is_busy (attached_error timed_out) = true
is_busy (lease_error e) = false
is_busy (file_error e) = false
is_busy (foreign_error is_timeout) = is_timeout

pub data Isolation : Type 0 where
  for_read for_write : Isolation

pub data LockMode : Type 0 where
  shared exclusive : LockMode

-- `timeout`: undefined, NaN of a text without digits, or milliseconds.
pub data Timeout : Type 0 where
  no_timeout bad_timeout : Timeout
  timeout_ms : ℤ → Timeout

-- A call that acts on a write-ahead and on the runtime's files.
abbrev pub Effect : Type 0 → Type 0 → Type 0
Effect W A = W × List SharedFile → Result VfsError A × (W × List SharedFile)

-- What the handlers use of WriteAhead and LazyLock, and of the other contexts.
pub record Platform (W L : Type 0) : Type 0 where
  pub isolation_state : W → Option Isolation
  pub isolate_for_read : Effect W (Unit {0})
  pub isolate_for_write : Effect W (Unit {0})
  pub try_upgrade_read_isolation_to_write : Effect W Bool
  pub rejoin : Effect W (Unit {0})
  pub read_page : ℕ → W → List SharedFile → Result VfsError (Option (List ℕ))
  pub write_page : ℕ → List ℕ → Option ℕ → Effect W (Unit {0})
  pub truncate_pages : ℕ → Effect W (Unit {0})
  pub get_file_size : W → ℕ
  -- whether the durability is strict
  pub sync : Bool → Effect W (Unit {0})
  pub commit : Effect W (Unit {0})
  pub rollback : Effect W (Unit {0})
  pub is_transaction_pending : W → Bool
  pub get_write_ahead_size : W → ℕ
  pub get_backstop_interval : W → ℤ
  -- a number that is none is NaN
  pub set_backstop_interval : Option ℤ → Effect W (Unit {0})
  pub set_journal_size_limit : Option ℤ → W → W
  pub set_auto_checkpoint : Option ℤ → W → W
  pub acquire : LockMode → Timeout → L → Result VfsError Bool × L
  pub acquire_if_held : LockMode → L → Bool × L
  pub release : L → L
  pub release_lazy : L → L
  -- whether the checkpoint is passive
  pub checkpoint : Bool → Effect W (Unit {0})
  pub new_lock : String → L
  pub close_lock : L → L
  -- the constructor and `ready`, which reads the files; and `close`
  pub new_write_ahead : String → List SharedFile → Result VfsError W × List SharedFile
  pub close_write_ahead : Effect W (Unit {0})
  -- what other contexts do to a transaction lock between two accesses
  pub meanwhile : TransactionWords → TransactionWords

pub data LockingMode : Type 0 where
  normal_mode exclusive_mode : LockingMode

pub data WriteHint : Type 0 where
  reserved_hint exclusive_hint : WriteHint

pub data LazyMode : Type 0 where
  lazy_none lazy_read lazy_write lazy_readwrite : LazyMode

-- `retryResult`: null, {} or an error.
pub data RetryState : Type 0 where
  no_result done : RetryState
  rejected : VfsError → RetryState

-- An access handle refers to the file it was made for; a shared one can be closed.
pub data Handle : Type 0 where
  shared_handle : (file : ℕ) → (is_closed : Bool) → Handle
  local_handle : (file : ℕ) → Handle

-- MemoryWriteAheadOpenFile. An optional field is none while it is undefined; `locking_mode` is only
-- compared with 'exclusive', so that undefined is as good as 'normal'. An owner id 0 is a missing one.
pub record OpenFile (W L : Type 0) : Type 0 where
  pub z_name : String
  pub flags : ℕ
  pub access_handle : Option Handle
  pub wa_handles : List Handle
  pub write_ahead : Option W
  pub read_lock : Option L
  pub write_lock : Option L
  pub retry_result : RetryState
  pub lock_state : Option ℕ
  pub locking_mode : LockingMode
  pub use_lazy_lock : Option LazyMode
  pub timeout : Timeout
  pub write_hint : Option WriteHint
  pub page_size : Option ℕ
  pub overwrite : Bool
  pub opened : Bool
  pub synchronous : Option ℕ
  pub shared_file : Option ℕ
  pub attached_transaction_lock_held : Bool
  pub attached_transaction_lock_owner_id : ℤ
  pub attached_transaction_lock_runtime_owner_id : ℤ

-- The operations that a handler queues on `retryOps` or `pendingOps`.
pub data Operation : Type 0 where
  retry_lock_read retry_lock_write retry_lock_attached retry_upgrade retry_open : Operation
  pending_checkpoint : (is_passive : Bool) → Operation

-- What a handler of one open file changes: the file, the runtime's files and the VFS's own, the queue
-- and the last error.
pub record Session (W L : Type 0) : Type 0 where
  pub file : OpenFile W L
  pub files : List SharedFile
  pub local_files : List LocalFile
  pub queue : List Operation
  pub last_error : Option VfsError

abbrev pub Action : Type 0 → Type 0 → Type 0 → Type 0
Action W L A = Session W L → Result VfsError A × Session W L

-- The rest of a handler after a call, skipped if the call throws; what the call has changed stays.
abbrev pub after :
    {S A B : Type 0}
    → Result VfsError A × S
    → (A → S → Result VfsError B × S)
    → Result VfsError B × S
after (err e, s) rest = (err e, s)
after (ok a, s) rest = rest a s

module _ {W L : Type 0} where
  abbrev pub enqueue : Operation → Session W L → Session W L
  enqueue op s = record s { queue = s.queue ++ op ∷ [] }

  abbrev pub with_retry : RetryState → Session W L → Session W L
  with_retry r s = record s { file = record (s.file) { retry_result = r } }

  abbrev pub is_main_db : OpenFile W L → Bool
  is_main_db f = has_flag f.flags sqlite_open_main_db

  abbrev pub put_effect : {A : Type 0} → Result VfsError A × (W × List SharedFile) → Action W L A
  put_effect out s =
      (out.0, record s { file = record (s.file) { write_ahead = some (out.1.0) }; files = out.1.1 })

  -- A call on the write-ahead the file may have (`?.`), which gives `missing` without one.
  abbrev pub on_write_ahead : {A : Type 0} → A → Effect W A → Option W → Action W L A
  on_write_ahead missing call none s = (ok missing, s)
  on_write_ahead missing call (some w) s = put_effect (call (w, s.files)) s

  -- The catch block: the handler returns `code` of the error.
  abbrev pub catch : (VfsError → ℕ) → Result VfsError ℕ × Session W L → ℕ × Session W L
  catch code (err e, s) = (code e, record s { last_error = some e })
  catch code (ok result, s) = (result, s)
