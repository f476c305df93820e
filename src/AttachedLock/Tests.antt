-- ===== src/AttachedLock/Tests.antt =====
-- Attached databases, and the theorems on their transaction locks.
use memory_write_ahead_vfs.Base.{◌≡◌, refl, true, false, List, [], ◌∷◌, pos, err}
use memory_write_ahead_vfs.SharedFile.{SharedFile, TransactionWords, no_meta, no_transaction}
use memory_write_ahead_vfs.Lease.{Runtime, quarantine_file}
use memory_write_ahead_vfs.Lease.Operations.{recover_terminated_memory_write_ahead_runtime_owner}
use memory_write_ahead_vfs.AttachedLock.{
  Attached, AttachedFile, quarantined, try_lock_attached_database, Try,
  retry_lock_attached_database,
}
use memory_write_ahead_vfs.AttachedLock.Laws.{nobody, Ended, retry_lock-Ended}
use memory_write_ahead_vfs.AttachedLock.Quarantine.{
  AreQuarantined, recover_terminated-AreQuarantined, quarantine_file-blocks,
}

abbrev attached : AttachedFile
attached = record {
  attached_transaction_lock_held = false;
  has_shared_file = true;
  attached_transaction_lock_owner_id = pos 21;
  attached_transaction_lock_runtime_owner_id = pos 7;
}

-- The lock of another context.
abbrev busy : TransactionWords
busy = record {
  transaction_lock = pos 33;
  transaction_lock_runtime_owner = pos 9;
  abandoned_transaction = pos 0;
}

abbrev busy_file : SharedFile
busy_file = record {
  db_filename = "/a.sqlite";
  max_capacity_bytes = 4;
  meta = record no_meta { active_segment_count = 1; transaction = busy };
  pathname = "/b.sqlite";
  segment_capacity_bytes = 4;
  segments = [];
}

abbrev shared : Runtime
shared = record {
  open_handle_count = pos 1;
  recovered_abandoned_handle_count = pos 0;
  slots = record { owner_id = pos 9; handle_count = pos 1; heartbeat_ms = pos 1 } ∷ [];
  files = busy_file ∷ [];
  file_lock_stale_ms = 30000;
}

-- The other context releases during the first wait, and another one takes the lock during the claim; the
-- second try has lost its claim then.
abbrev tries : List Try
tries =
    record { within = nobody; is_expired = false; during = λ w. no_transaction }
    ∷ record { within = λ w. busy; is_expired = true; during = nobody }
    ∷ []

retry_example :
    Ended attached
      (retry_lock_attached_database nobody tries (record { file = attached; words = busy }))
retry_example = retry_lock-Ended nobody tries attached busy (refl, refl, refl, refl) refl

quarantines_example :
    AreQuarantined
      (pos 9)
      (busy_file ∷ [])
      (recover_terminated_memory_write_ahead_runtime_owner (pos 9) shared).1.files
quarantines_example = recover_terminated-AreQuarantined (pos 9) shared refl refl

blocks_example :
    let a : Attached = record {
      file = attached;
      words = (quarantine_file (pos 9) busy_file).meta.transaction;
    } in
    try_lock_attached_database nobody a ≡ (err quarantined, a)
blocks_example =
    quarantine_file-blocks (pos 9) busy_file attached refl refl (refl, refl, refl, refl)
