-- ===== src/Vfs/Checkpointing.antt =====
-- What a checkpoint that is not passive leaves (src/MemoryWriteAheadVFS.ts).
use memory_write_ahead_vfs.Base.{
  ℕ, false, Option, none, some, ℤ, pos, Result, ok, err, get_elem?, ◌≡◌, refl, ap,
}
use memory_write_ahead_vfs.SharedFile.{SharedFile}
use memory_write_ahead_vfs.Vfs.{
  no_timeout, VfsError, exclusive, Effect, Platform, Session, on_write_ahead,
}
use memory_write_ahead_vfs.Vfs.Outcomes.{IsDocumented, IsIsolated, Ends, Ends-of_result, after-Ends}
use memory_write_ahead_vfs.Vfs.Control.{size_or_zero}
use memory_write_ahead_vfs.Vfs.Checkpoint.{
  acquire_checkpoint, finally_then, record_in, record_checkpoint, checkpoint_file,
  rejoin_and_release, checkpoint_isolated, pending_checkpoint_operation,
}

module _ {W L : Type 0} (p : Platform W L) where
  -- The file has a write-ahead, and its write lock is as given.
  abbrev Holds : Option L → Session W L → Type 0
  Holds lock s = ((w : W) × (s.file.write_ahead ≡ some w)) × (s.file.write_lock ≡ lock)

  on_write_ahead-Holds :
      (lock : Option L) (call : Effect W (Unit {0})) (ahead : Option W) (s : Session W L)
      → Holds lock s
      → Ends (λ _. Holds lock) (λ _. Holds lock) (on_write_ahead tt call ahead s)
  on_write_ahead-Holds lock call none s holds = record { how = holds }
  on_write_ahead-Holds lock call (some w) s holds =
      Ends-of_result (call (w, s.files)).0 _ (λ e. ((_, refl), holds.1))
        (λ a r. ((_, refl), holds.1))

  record_in-Holds :
      (lock : Option L) (elapsed pages : ℤ) (i : ℕ) (f : Option SharedFile) (s : Session W L)
      → Holds lock s
      → Holds lock (record_in p elapsed pages i f s)
  record_in-Holds lock elapsed pages i none s holds = holds
  record_in-Holds lock elapsed pages i (some f) s holds = holds

  record_checkpoint-Holds :
      (lock : Option L) (elapsed pages : ℤ) (own : Option ℕ) (ahead : Option W) (s : Session W L)
      → Holds lock s
      → Holds lock (record_checkpoint p elapsed pages own ahead s)
  record_checkpoint-Holds lock elapsed pages none ahead s holds = holds
  record_checkpoint-Holds lock elapsed pages (some i) none s holds = holds
  record_checkpoint-Holds lock elapsed pages (some i) (some w) s holds =
      record_in-Holds lock elapsed pages i (get_elem? s.files i) s holds

  checkpoint_file-Holds :
      (lock : Option L) (elapsed : ℤ) (pages : ℕ) (own : Option ℕ) (s : Session W L)
      → Holds lock s
      → Ends (λ _. Holds lock) (λ _. Holds lock) (checkpoint_file p false elapsed pages own s)
  checkpoint_file-Holds lock elapsed pages own s holds =
      after-Ends _ _ (on_write_ahead-Holds lock (p.checkpoint false) s.file.write_ahead s holds)
        (λ _ t h. record {
          how = record_checkpoint-Holds lock elapsed (pos pages) own t.file.write_ahead t h;
        })

  -- Nothing is said of a checkpoint that throws; one that returns has given everything back.
  abbrev pub Restored : Option L → Result VfsError (Unit {0}) × Session W L → Type 0
  Restored lock out =
      Ends (λ _ _. Unit {0}) (λ _ t. IsIsolated p none t × (t.file.write_lock ≡ lock)) out

  rejoin_file-Ends :
      (lock : L) (ahead : Option W) (s : Session W L)
      → IsDocumented p
      → Holds (some lock) s
      → s.file.write_ahead ≡ ahead
      → Ends
          (λ _ _. Unit {0})
          (λ _ t. IsIsolated p none t × (t.file.write_lock ≡ some lock))
          (on_write_ahead tt p.rejoin ahead s)
  rejoin_file-Ends lock none s d ((w, has), holds) e = absurd cc
  rejoin_file-Ends lock (some w) s d holds e =
      Ends-of_result (p.rejoin (w, s.files)).0 _ (λ e. tt)
        (λ a r. ((_, refl, d.rejoins (w, s.files) r), holds.1))

  rejoin_and_release-Restored :
      (lock : L) (s : Session W L)
      → IsDocumented p
      → Holds (some lock) s
      → Restored (some (p.release lock)) (rejoin_and_release p s)
  rejoin_and_release-Restored lock s d holds =
      after-Ends _ _ (rejoin_file-Ends lock s.file.write_ahead s d holds refl)
        (λ _ t h. record { how = (h.0, rw h.1 refl) })

  finally-Restored :
      (lock : L)
      → IsDocumented p
      → (out : Result VfsError (Unit {0}) × Session W L)
      → Ends (λ _. Holds (some lock)) (λ _. Holds (some lock)) out
      → Restored (some (p.release lock)) (finally_then p (rejoin_and_release p) out)
  finally-Restored lock d (ok _, s) ends = rejoin_and_release-Restored lock s d ends.how
  finally-Restored lock d (err e, s) ends =
      after-Ends _ _ (rejoin_and_release-Restored lock s d ends.how) (λ _ t h. record { how = tt })

  checkpoint_isolated-Restored :
      (lock : L) (elapsed : ℤ) (pages : ℕ) (own : Option ℕ)
      → IsDocumented p
      → (out : Result VfsError (Unit {0}) × Session W L)
      → Ends (λ _. Holds (some lock)) (λ _. Holds (some lock)) out
      → Restored (some (p.release lock)) (checkpoint_isolated p elapsed pages own out)
  checkpoint_isolated-Restored lock elapsed pages own d (err e, s) ends = record { how = tt }
  checkpoint_isolated-Restored lock elapsed pages own d (ok _, s) ends =
      finally-Restored lock d _ (checkpoint_file-Holds (some lock) elapsed pages own s ends.how)

  acquire_checkpoint-Holds :
      (lock : L) (o : Option L) (s : Session W L)
      → o ≡ some lock
      → (w : W) → s.file.write_ahead ≡ some w
      → Ends
          (λ _ _. Unit {0})
          (λ _. Holds (some (p.acquire exclusive no_timeout lock).1))
          (acquire_checkpoint p o s)
  acquire_checkpoint-Holds lock none s e w has = absurd cc
  acquire_checkpoint-Holds lock (some l) s e w has =
      let same : l ≡ lock = cc in
      Ends-of_result (p.acquire exclusive no_timeout l).0 _ (λ e. tt)
        (λ a r. ((w, has), ap (λ x. some (p.acquire exclusive no_timeout x).1) same))

  -- A checkpoint that is not passive, once it returns, has given back the isolation and the write lock: the
  -- write-ahead is not isolated, and the lock is what releasing makes of the acquired one. Nothing is said
  -- of one that throws.
  pub pending_checkpoint-Restored :
      (elapsed : ℤ) (own : Option ℕ) (s : Session W L) (w : W) (lock : L)
      → IsDocumented p
      → s.file.write_ahead ≡ some w
      → s.file.write_lock ≡ some lock
      → Restored
          (some (p.release (p.acquire exclusive no_timeout lock).1))
          (pending_checkpoint_operation p false elapsed own s)
  unfolding pending_checkpoint_operation
  pending_checkpoint-Restored elapsed own s w lock d has locked =
      after-Ends _ _ (acquire_checkpoint-Holds lock s.file.write_lock s locked w has) (λ _ t h.
        checkpoint_isolated-Restored (p.acquire exclusive no_timeout lock).1 elapsed
          (size_or_zero p s.file.write_ahead) own d _
          (on_write_ahead-Holds (some (p.acquire exclusive no_timeout lock).1) p.isolate_for_write
            t.file.write_ahead t h))
