-- ===== src/Vfs/Tests.antt =====
-- A platform with a write-ahead that is a mere isolation state and locks that are free, open files on it,
-- and the theorems on their locks.
use memory_write_ahead_vfs.Base.{
  ℕ, Bool, true, false, Option, none, some, List, [], ◌∷◌, pos, negsuc, ok, ◌≡◌, ◌⊎◌, refl, arith,
}
use memory_write_ahead_vfs.SharedFile.{SharedFile, no_meta, no_transaction}
use memory_write_ahead_vfs.AttachedLock.Laws.{nobody}
use memory_write_ahead_vfs.Vfs.{
  done, timeout_ms, Isolation, for_read, for_write, Platform, normal_mode, lazy_readwrite,
  no_result, retry_lock_read, retry_upgrade, OpenFile, Session, sqlite_lock_none,
  sqlite_lock_shared, exclusive_hint,
}
use memory_write_ahead_vfs.Vfs.Locking.{j_lock, j_unlock}
use memory_write_ahead_vfs.Vfs.Retry.{
  Tick, retry_lock_attached_operation, retry_lock_read_operation, retry_lock_write_operation,
  retry_upgrade_deferred_write,
}
use memory_write_ahead_vfs.Vfs.Outcomes.{IsDocumented}
use memory_write_ahead_vfs.Vfs.Granted.{IsGranted, IsRefused}
use memory_write_ahead_vfs.Vfs.Retried.{j_lock-retry_read, j_lock-retry_write, j_lock-retry_upgrade}
use memory_write_ahead_vfs.Vfs.Requests.{Decided, j_lock-Decided_shared, j_lock-Decided_reserved}
use memory_write_ahead_vfs.Vfs.Unlocking.{Unlocks, j_unlock-Unlocks}
use memory_write_ahead_vfs.Vfs.Rejections.{Answers, j_lock-retry_attached}
use memory_write_ahead_vfs.Vfs.AttachedFiles.{IsAttached}
use memory_write_ahead_vfs.Vfs.GivenBack.{IsGivenBack, j_unlock-j_lock}
use memory_write_ahead_vfs.Vfs.Protocol.{
  IsSteady, Run, starts, goes_on, locks_shared, locks_beyond, unlocks, runs_read, runs_upgrade,
  taken,
}
use memory_write_ahead_vfs.Vfs.Protocol.Safety.{IsShielded, Run-IsShielded}
use memory_write_ahead_vfs.Vfs.Checkpoint.{pending_checkpoint_operation}
use memory_write_ahead_vfs.Vfs.Checkpointing.{Restored, pending_checkpoint-Restored}

abbrev pub toy : Platform (Option Isolation) Bool
toy = record {
  isolation_state = λ w. w;
  isolate_for_read = λ w. (ok tt, (some for_read, w.1));
  isolate_for_write = λ w. (ok tt, (some for_write, w.1));
  try_upgrade_read_isolation_to_write = λ w. (ok true, (some for_write, w.1));
  rejoin = λ w. (ok tt, (none, w.1));
  read_page = λ offset w files. ok (some (1 ∷ 2 ∷ 3 ∷ []));
  write_page = λ offset source size w. (ok tt, w);
  truncate_pages = λ size w. (ok tt, w);
  get_file_size = λ w. 0;
  sync = λ is_strict w. (ok tt, w);
  commit = λ w. (ok tt, w);
  rollback = λ w. (ok tt, w);
  is_transaction_pending = λ w. false;
  get_write_ahead_size = λ w. 0;
  get_backstop_interval = λ w. pos 0;
  set_backstop_interval = λ n w. (ok tt, w);
  set_journal_size_limit = λ n w. w;
  set_auto_checkpoint = λ n w. w;
  acquire = λ mode timeout l. (ok true, true);
  acquire_if_held = λ mode l. (l, l);
  release = λ l. false;
  release_lazy = λ l. true;
  checkpoint = λ is_passive w. (ok tt, w);
  new_lock = λ name. false;
  close_lock = λ l. false;
  new_write_ahead = λ name files. (ok none, files);
  close_write_ahead = λ w. (ok tt, w);
  meanwhile = nobody;
}

toy-IsDocumented : IsDocumented toy
toy-IsDocumented = record {
  isolates_read = λ w r. refl;
  isolates_write = λ w r. refl;
  upgrades = λ w r. refl;
  rejoins = λ w r. refl;
}

-- The primary database, unlocked, and locked for reading.
abbrev pub primary : OpenFile (Option Isolation) Bool
primary = record {
  z_name = "/a";
  flags = 256;
  access_handle = none;
  wa_handles = [];
  write_ahead = some none;
  read_lock = some false;
  write_lock = some false;
  retry_result = no_result;
  lock_state = some 0;
  locking_mode = normal_mode;
  use_lazy_lock = some lazy_readwrite;
  timeout = timeout_ms (negsuc 0);
  write_hint = none;
  page_size = none;
  overwrite = false;
  opened = true;
  synchronous = some 1;
  shared_file = none;
  attached_transaction_lock_held = false;
  attached_transaction_lock_owner_id = pos 0;
  attached_transaction_lock_runtime_owner_id = pos 0;
}

abbrev pub session :
    OpenFile (Option Isolation) Bool → List SharedFile → Session (Option Isolation) Bool
session f files = record {
  file = f;
  files = files;
  local_files = [];
  queue = [];
  last_error = none;
}

abbrev unlocked : Session (Option Isolation) Bool
unlocked = session primary []

abbrev reading : Session (Option Isolation) Bool
reading =
    session
      (record primary {
        lock_state = some 1;
        write_ahead = some (some for_read);
        read_lock = some true;
      })
      []

abbrev hinted : Session (Option Isolation) Bool
hinted = session (record primary { write_hint = some exclusive_hint }) []

j_lock-Decided_shared_example :
    Decided toy sqlite_lock_shared for_read retry_lock_read unlocked
      (j_lock toy sqlite_lock_shared unlocked)
j_lock-Decided_shared_example =
    j_lock-Decided_shared toy unlocked toy-IsDocumented none refl refl refl

j_lock-Decided_reserved_example :
    Decided toy 2 for_write retry_upgrade reading (j_lock toy 2 reading)
j_lock-Decided_reserved_example =
    j_lock-Decided_reserved toy 2 reading toy-IsDocumented (some for_read) refl (omega arith)

j_lock-retry_read_example :
    IsGranted toy sqlite_lock_shared for_read unlocked
      (j_lock toy sqlite_lock_shared (retry_lock_read_operation toy unlocked))
    ⊎ IsRefused unlocked (j_lock toy sqlite_lock_shared (retry_lock_read_operation toy unlocked))
j_lock-retry_read_example = j_lock-retry_read toy unlocked toy-IsDocumented none refl refl

j_lock-retry_write_example :
    IsGranted toy sqlite_lock_shared for_write hinted
      (j_lock toy sqlite_lock_shared (retry_lock_write_operation toy hinted))
    ⊎ IsRefused hinted (j_lock toy sqlite_lock_shared (retry_lock_write_operation toy hinted))
j_lock-retry_write_example = j_lock-retry_write toy hinted toy-IsDocumented none refl refl

j_lock-retry_upgrade_example :
    IsGranted toy 2 for_write reading (j_lock toy 2 (retry_upgrade_deferred_write toy reading))
    ⊎ IsRefused reading (j_lock toy 2 (retry_upgrade_deferred_write toy reading))
j_lock-retry_upgrade_example =
    j_lock-retry_upgrade toy 2 reading toy-IsDocumented (some for_read) refl (omega arith)

j_unlock-Unlocks_example : Unlocks toy reading (j_unlock toy sqlite_lock_none reading)
j_unlock-Unlocks_example = j_unlock-Unlocks toy reading toy-IsDocumented (some for_read) refl refl

pending_checkpoint-Restored_example :
    Restored toy (some false) (pending_checkpoint_operation toy false (pos 3) none unlocked)
pending_checkpoint-Restored_example =
    pending_checkpoint-Restored toy (pos 3) none unlocked none false toy-IsDocumented refl refl

-- An attached database, of two connections.
abbrev pub shared : SharedFile
shared = record {
  db_filename = "/a";
  max_capacity_bytes = 4;
  meta = record no_meta { active_segment_count = 1 };
  pathname = "/b";
  segment_capacity_bytes = 4;
  segments = [];
}

abbrev pub attached : ℕ → OpenFile (Option Isolation) Bool
attached owner = record primary {
  z_name = "/b";
  write_ahead = none;
  shared_file = some 0;
  attached_transaction_lock_owner_id = pos owner;
  attached_transaction_lock_runtime_owner_id = pos 7;
}

-- The other context goes while the file waits, a third one is in between, and the time is up at the second try.
abbrev ticks : List Tick
ticks =
    record { within = nobody; now = 5; during = λ w. no_transaction }
    ∷ record { within = λ w. w; now = 40; during = nobody }
    ∷ []

abbrev waiting_file : Session (Option Isolation) Bool
waiting_file =
    session (record (attached 21) { timeout = timeout_ms (pos 30); retry_result = done })
      (record shared {
        meta = record (shared.meta) {
          transaction = record no_transaction { transaction_lock = pos 33 };
        };
      }
        ∷ [])

j_lock-retry_attached_example :
    Answers toy waiting_file
      (j_lock toy sqlite_lock_shared (retry_lock_attached_operation nobody 0 ticks waiting_file))
j_lock-retry_attached_example =
    j_lock-retry_attached toy nobody 0 ticks waiting_file refl refl refl (refl, refl, refl, refl)
      refl

abbrev first : Session (Option Isolation) Bool
first = session (attached 21) (shared ∷ [])

abbrev second : Session (Option Isolation) Bool
second = record (session (attached 22) []) { files = (j_lock toy sqlite_lock_shared first).1.files }

first-IsAttached : IsAttached 0 first
first-IsAttached = record {
  main = refl;
  no_write_ahead = refl;
  no_retry = refl;
  unlocked = refl;
  shared = refl;
  ready = (refl, refl, refl, refl);
}

j_unlock-j_lock_example :
    IsGivenBack toy 0 no_transaction
      (j_lock toy sqlite_lock_shared first)
      (j_unlock toy sqlite_lock_none (j_lock toy sqlite_lock_shared first).1)
j_unlock-j_lock_example = j_unlock-j_lock toy first shared refl first-IsAttached refl refl refl

toy-IsSteady : IsSteady toy
toy-IsSteady = record { stays = λ w refused. absurd (refused refl) }

-- SHARED has to wait, is granted after its operation has run, and RESERVED has to wait; SQLite unlocks
-- before the upgrade runs, and then asks for SHARED again.
abbrev waiting : Session (Option Isolation) Bool
waiting = (j_lock toy sqlite_lock_shared unlocked).1

abbrev granted : Session (Option Isolation) Bool
granted = (j_lock toy sqlite_lock_shared (retry_lock_read_operation toy (taken toy waiting))).1

abbrev upgrading : Session (Option Isolation) Bool
upgrading = (j_unlock toy sqlite_lock_none (j_lock toy 2 granted).1).1

abbrev upgraded : Session (Option Isolation) Bool
upgraded =
    (j_lock toy sqlite_lock_shared (retry_upgrade_deferred_write toy (taken toy upgrading))).1

one_run : Run toy unlocked upgraded
unfolding j_lock j_unlock retry_lock_read_operation retry_upgrade_deferred_write
one_run =
    goes_on
      (goes_on
        (goes_on
          (goes_on
            (goes_on (goes_on (goes_on starts (locks_shared refl refl)) (runs_read refl))
              (locks_shared refl refl))
            (locks_beyond 1 2 refl (omega arith) (omega arith) refl))
          (unlocks refl))
        (runs_upgrade refl))
      (locks_shared refl refl)

upgraded_level : upgraded.file.lock_state ≡ some 1
unfolding j_lock j_unlock retry_lock_read_operation retry_upgrade_deferred_write
upgraded_level = refl

Run-IsShielded_example : IsShielded toy upgraded 1
Run-IsShielded_example =
    Run-IsShielded toy unlocked upgraded none 1 toy-IsDocumented toy-IsSteady refl refl refl refl
      one_run upgraded_level
