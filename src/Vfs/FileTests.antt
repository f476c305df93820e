-- ===== src/Vfs/FileTests.antt =====
-- Sessions and systems with files, and the theorems on reading, writing, opening and closing them.
use memory_write_ahead_vfs.Base.{
  ℕ, ◌+◌, ◌-◌, Bool, false, Option, none, some, List, [], ◌∷◌, map, get_or, pos, arith, ◌≡◌, refl,
}
use memory_write_ahead_vfs.SharedFile.Tests.{small_file, small_file-IsWellFormed, six}
use memory_write_ahead_vfs.FileLock.{owner_word}
use memory_write_ahead_vfs.Lease.{LocalLease}
use memory_write_ahead_vfs.LocalFile.{LocalFile}
use memory_write_ahead_vfs.Registry.Keys.{Table}
use memory_write_ahead_vfs.Vfs.{
  Isolation, OpenFile, Session, shared_handle, local_handle, sqlite_ok, sqlite_notfound,
}
use memory_write_ahead_vfs.Vfs.Io.{FileLocking, j_read, j_write, j_file_size}
use memory_write_ahead_vfs.Vfs.Io.Reads.{IsRead, j_read-IsRead}
use memory_write_ahead_vfs.Vfs.Io.Temporary.{
  FileCall, writes, truncates, Bytes, after_calls, handle_all, Represents, handle_all-refines,
}
use memory_write_ahead_vfs.Vfs.Io.SharedWrites.{j_read-j_write}
use memory_write_ahead_vfs.Vfs.Files.{Vfs, get_memory_write_ahead_file}
use memory_write_ahead_vfs.Vfs.OpenRetry.{
  System, get_write_ahead_name_from_db_name, retry_open_operation,
}
use memory_write_ahead_vfs.Vfs.Opening.{j_open}
use memory_write_ahead_vfs.Vfs.Closing.{j_close}
use memory_write_ahead_vfs.Vfs.PrimaryOpen.{IsDecided, j_open-retry_open}
use memory_write_ahead_vfs.Vfs.OpenLeak.{retry_open-leaks}
use memory_write_ahead_vfs.Vfs.TemporaryLife.{AreTemporary, IsNew, Opens, Closes, j_close-j_open}
use memory_write_ahead_vfs.Vfs.Control.{pragma, j_file_control}
use memory_write_ahead_vfs.Vfs.PageSizes.{Keeps, page_size-IsPageSize}
use memory_write_ahead_vfs.Vfs.Tests.{toy, primary, attached, session}

-- The write-ahead has a page of three bytes; the buffer holds two, at the offset 2 of the header.
abbrev with_pages : Session (Option Isolation) Bool
with_pages =
    session (record primary { access_handle = some (shared_handle 0 false) }) (small_file ∷ [])

j_read-IsRead_example :
    IsRead 1
      (λ j. get_or (1 ∷ 2 ∷ 3 ∷ []) (2 + j) 0)
      (9 ∷ 9 ∷ [])
      with_pages
      (j_read toy 2 (9 ∷ 9 ∷ []) with_pages)
j_read-IsRead_example =
    j_read-IsRead toy 0 false 2 (9 ∷ 9 ∷ []) with_pages none small_file (some (1 ∷ 2 ∷ 3 ∷ [])) refl
      refl refl refl small_file-IsWellFormed refl

-- The lock of a file is had at once.
abbrev lock_at_once : FileLocking
lock_at_once = record {
  owner = 7;
  now = 10;
  acquire = λ w. record {
    wait_count = 0;
    wait_ms = pos 0;
    words = record w { lock = owner_word 7; lock_owner = owner_word 7; lock_heartbeat_ms = pos 9 };
  };
}

abbrev scratch : LocalFile
scratch = record { contents = 1 ∷ 2 ∷ 3 ∷ 4 ∷ []; size = 3 }

abbrev three_bytes : Bytes
three_bytes = record { size = 3; byte_of = λ j. get_or (1 ∷ 2 ∷ 3 ∷ 4 ∷ []) j 0 }

abbrev temporary_session : Session (Option Isolation) Bool
temporary_session =
    record (session
      (record primary { z_name = "/t"; flags = 0; access_handle = some (local_handle 0) }) []) {
        local_files = scratch ∷ [];
      }

abbrev calls : List FileCall
calls = writes 5 (8 ∷ 9 ∷ []) ∷ truncates 2 ∷ truncates 6 ∷ []

temporary-Represents : Represents lock_at_once toy 0 three_bytes temporary_session
temporary-Represents = record {
  temporary = refl;
  handled = refl;
  local = scratch;
  found = refl;
  contents = (omega arith, refl, λ j. refl);
}

handle_all-refines_example :
    let (codes, t) = handle_all lock_at_once toy calls temporary_session in
    let b = after_calls calls three_bytes in
    (codes ≡ map (λ _. sqlite_ok) calls)
    × (j_file_size toy t ≡ (sqlite_ok, b.size))
    × IsRead
        (b.size - 4)
        (λ j. b.byte_of (4 + j))
        (7 ∷ 7 ∷ 7 ∷ [])
        t
        (j_read toy 4 (7 ∷ 7 ∷ 7 ∷ []) t)
handle_all-refines_example =
    handle_all-refines lock_at_once toy 0 calls three_bytes temporary_session 4 (7 ∷ 7 ∷ 7 ∷ [])
      temporary-Represents

-- Two connections to an attached database.
abbrev writer : Session (Option Isolation) Bool
writer =
    session (record (attached 21) { access_handle = some (shared_handle 0 false) })
      (small_file ∷ [])

abbrev reader : Session (Option Isolation) Bool
reader =
    session (record (attached 22) { access_handle = some (shared_handle 0 false) })
      (j_write lock_at_once toy 3 six writer).1.files

j_read-j_write_example :
    ((j_write lock_at_once toy 3 six writer).0 ≡ sqlite_ok)
    × (j_read toy 3 (0 ∷ 0 ∷ 0 ∷ 0 ∷ 0 ∷ 0 ∷ []) reader ≡ (sqlite_ok, six, reader))
j_read-j_write_example =
    j_read-j_write toy lock_at_once 0 six (0 ∷ 0 ∷ 0 ∷ 0 ∷ 0 ∷ 0 ∷ []) 3 writer reader small_file
      (λ w. refl) (record { main = refl; no_write_ahead = refl; is_closed = false; handle = refl })
      (record { main = refl; no_write_ahead = refl; is_closed = false; handle = refl }) refl
      small_file-IsWellFormed (omega arith) refl refl

-- A system whose paths are normal already, with a lease of one handle.
abbrev plain : System
plain = record {
  normalize = λ o. elim o [ none ↦ "/r" | some path ↦ path ];
  normalize_again = λ o. elim o [ none ↦ "/s" | some path ↦ path ];
  now = 100;
  reload = λ n heartbeat. heartbeat;
  lease_owner_id = pos 5;
  lock_owner_id = pos 6;
}

abbrev lease : LocalLease
lease = record { handle_count = 1; owner_id = pos 5; slot_index = 0 }

abbrev with_files : List (OpenFile (Option Isolation) Bool) → Table ℕ → Vfs (Option Isolation) Bool
with_files open_files paths = record {
  db_filename = "/a";
  open_files = open_files;
  map_id_to_file = [];
  map_path_to_file = paths;
  local_store = [];
  local_files = [];
  shared_files = ("/a", 0) ∷ ("/a-wa0", 1) ∷ [];
  context = record {
    lease = some lease;
    runtime = record {
      open_handle_count = pos 1;
      recovered_abandoned_handle_count = pos 0;
      slots = [];
      files = small_file ∷ small_file ∷ [];
      file_lock_stale_ms = 30000;
    };
  };
  queue = [];
  last_error = none;
}

-- The primary database as its first open leaves it to the retry.
abbrev first_open : Vfs (Option Isolation) Bool
first_open = with_files (record primary { opened = false } ∷ []) (("/a", 0) ∷ [])

j_open-retry_open_example :
    IsDecided 0 9 "/a" first_open
      (j_open toy plain (some "/a") 9 256 (retry_open_operation toy plain 0 "/a" first_open))
j_open-retry_open_example =
    j_open-retry_open toy plain (some "/a") 9 256 0 (record primary { opened = false }) first_open
      refl refl refl refl refl

-- A VFS without open files, and what the first open of its database leaves.
abbrev nopened_once : Vfs (Option Isolation) Bool
nopened_once = with_files [] []

abbrev opened_once : Vfs (Option Isolation) Bool
opened_once = (j_open toy plain (some "/a") 9 256 nopened_once).1

abbrev one_open : Vfs (Option Isolation) Bool
one_open = with_files (primary ∷ []) (("/a", 0) ∷ [])

retry_open-leaks_example :
    (retry_open_operation toy plain 0 "/a" first_open).context.lease
    ≡ some (record { handle_count = 2; owner_id = pos 5; slot_index = 0 })
unfolding get_memory_write_ahead_file get_write_ahead_name_from_db_name
retry_open-leaks_example =
    retry_open-leaks toy plain 0 0 1 "/a" lease first_open refl refl refl refl

-- A new temporary file, with the flags CREATE and DELETEONCLOSE.
temporary_flags : AreTemporary 12
temporary_flags = record {
  no_main = refl;
  no_wal = refl;
  no_super = refl;
  creates = refl;
  deletes = refl;
}

path-IsNew : IsNew toy plain "/t" "/t" one_open
unfolding get_memory_write_ahead_file
path-IsNew = record { normalizes = refl; not_shared = refl; not_local = refl; not_open = refl }

j_close-j_open_example :
    Opens toy plain "/t" 9 (j_open toy plain (some "/t") 9 12 one_open)
    × Closes toy plain "/t" "/t" 9
        (j_close plain toy 9 (j_open toy plain (some "/t") 9 12 one_open).1)
j_close-j_open_example = j_close-j_open toy plain "/t" "/t" 9 12 one_open temporary_flags path-IsNew

page_size-IsPageSize_example :
    let out = j_file_control toy (pragma "page_size" (some "8192")) temporary_session in
    (out.0 ≡ (sqlite_notfound, none)) × Keeps temporary_session.file.page_size out.1.file.page_size
page_size-IsPageSize_example = page_size-IsPageSize toy (some "8192") temporary_session
