-- ===== src/Vfs/Checkpoint.antt =====
-- The checkpoint that a pragma queues (src/MemoryWriteAheadVFS.ts): #pendingCheckpoint.
use memory_write_ahead_vfs.Base.{
  ℕ, Bool, true, false, Option, none, some, ℤ, pos, Result, ok, err, get_elem?, set,
}
use memory_write_ahead_vfs.SharedFile.{SharedFile}
use memory_write_ahead_vfs.SharedFile.Records.{record_memory_write_ahead_checkpoint}
use memory_write_ahead_vfs.Vfs.{
  no_timeout, VfsError, exclusive, Platform, Session, Action, after, on_write_ahead,
}
use memory_write_ahead_vfs.Vfs.Locking.{put_write_lock}
use memory_write_ahead_vfs.Vfs.Retry.{release_write}
use memory_write_ahead_vfs.Vfs.Control.{size_or_zero}

module _ {W L : Type 0} (p : Platform W L) where
  -- The lock is waited for without an end, and what the acquisition returns is not looked at.
  abbrev pub acquire_checkpoint : Option L → Action W L Bool
  acquire_checkpoint none s = (ok false, s)
  acquire_checkpoint (some lock) s = put_write_lock (p.acquire exclusive no_timeout lock) s

  -- `onFinally`, whatever happened before: an error of its own replaces that.
  abbrev pub finally_then :
      Action W L (Unit {0})
      → Result VfsError (Unit {0}) × Session W L
      → Result VfsError (Unit {0}) × Session W L
  finally_then cleanup (ok _, s) = cleanup s
  finally_then cleanup (err e, s) = after (cleanup s) (λ _ t. (err e, t))

  abbrev pub rejoin_file : Action W L (Unit {0})
  rejoin_file s = on_write_ahead tt p.rejoin s.file.write_ahead s

  abbrev pub record_in : ℤ → ℤ → ℕ → Option SharedFile → Session W L → Session W L
  record_in elapsed pages i none s = s
  record_in elapsed pages i (some f) s = record s {
    files = set s.files i (record_memory_write_ahead_checkpoint elapsed pages f);
  }

  abbrev pub record_checkpoint : ℤ → ℤ → Option ℕ → Option W → Session W L → Session W L
  record_checkpoint elapsed pages none w s = s
  record_checkpoint elapsed pages (some i) none s = s
  record_checkpoint elapsed pages (some i) (some w) s =
      record_in elapsed pages i (get_elem? s.files i) s

  abbrev pub checkpoint_file : Bool → ℤ → ℕ → Option ℕ → Action W L (Unit {0})
  checkpoint_file is_passive elapsed pages own s =
      after (on_write_ahead tt (p.checkpoint is_passive) s.file.write_ahead s)
        (λ _ t. (ok tt, record_checkpoint elapsed (pos pages) own t.file.write_ahead t))

  -- Rejoining first; an error of it ends the loop over `onFinally`.
  abbrev pub rejoin_and_release : Action W L (Unit {0})
  rejoin_and_release s = after (rejoin_file s) (λ _ t. (ok tt, release_write p t))

  abbrev pub checkpoint_isolated :
      ℤ
      → ℕ
      → Option ℕ
      → Result VfsError (Unit {0}) × Session W L
      → Result VfsError (Unit {0}) × Session W L
  checkpoint_isolated elapsed pages own (err e, s) = (err e, release_write p s)
  checkpoint_isolated elapsed pages own (ok _, s) =
      finally_then rejoin_and_release (checkpoint_file false elapsed pages own s)

  -- `own` is the shared file of the path, and `elapsed` the milliseconds that the checkpoint takes.
  unfoldable pub pending_checkpoint_operation :
      Bool → ℤ → Option ℕ → Session W L → Result VfsError (Unit {0}) × Session W L
  unfolding record_memory_write_ahead_checkpoint
  pending_checkpoint_operation true elapsed own s =
      checkpoint_file true elapsed (size_or_zero p s.file.write_ahead) own s
  pending_checkpoint_operation false elapsed own s =
      after (acquire_checkpoint s.file.write_lock s) (λ _ t.
        checkpoint_isolated elapsed (size_or_zero p s.file.write_ahead) own
          (on_write_ahead tt p.isolate_for_write t.file.write_ahead t))
