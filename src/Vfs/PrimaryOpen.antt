-- ===== src/Vfs/PrimaryOpen.antt =====
-- The first open of the primary database (src/MemoryWriteAheadVFS.ts): jOpen again after its retry.
use Prim.Native.String.{String}
use memory_write_ahead_vfs.Base.{
  ℕ, true, false, Option, none, some, List, [], ◌∷◌, get_elem?, get_elem?-set, ◌≡◌, ◌⊎◌, refl, sym,
  ap, ◌∙◌, inl, inr, Result, ok, err, ==_iff,
}
use mathlib.Core.Path.{subst}
use memory_write_ahead_vfs.SharedFile.{SharedFile}
use memory_write_ahead_vfs.Lease.{Context, LeaseError}
use memory_write_ahead_vfs.Lease.Operations.{retain_memory_write_ahead_runtime_handle}
use memory_write_ahead_vfs.Registry.Keys.{delete_key, same_text_refl, find_key}
use memory_write_ahead_vfs.Vfs.{
  VfsError, Platform, RetryState, no_result, done, rejected, Handle, shared_handle, local_handle,
  OpenFile, has_flag, sqlite_ok, sqlite_cantopen, sqlite_open_main_db,
}
use memory_write_ahead_vfs.Vfs.Files.{Vfs, find_id, shared_store, get_memory_write_ahead_file}
use memory_write_ahead_vfs.Vfs.TemporaryLife.{find_id-delete_id}
use memory_write_ahead_vfs.Vfs.OpenRetry.{
  System, normalized, retained, new_shared_handle, open_found, open_shared_handle, close_handle_of,
  change_found, give_up_open, first_open, second_open, third_open, finish_open,
  retry_open_operation,
}
use memory_write_ahead_vfs.Vfs.Opening.{is_null, j_open, open_primary, open_by_result}

module _ {W L : Type 0} (k : ℕ) (before : OpenFile W L) where
  -- The file `k` is as before the operation, and the VFS's maps are.
  abbrev Same : Vfs W L → Vfs W L → Type 0
  Same v u =
      (get_elem? u.open_files k ≡ some before)
      × (u.db_filename ≡ v.db_filename)
      × (u.map_path_to_file ≡ v.map_path_to_file)

  -- The operation has left a result in the file.
  pub record HasResult (v u : Vfs W L) : Type 0 where
    pub after : OpenFile W L
    pub found : get_elem? u.open_files k ≡ some after
    pub result : is_null after.retry_result ≡ false
    pub opened : after.opened ≡ before.opened
    pub db : u.db_filename ≡ v.db_filename
    pub paths : u.map_path_to_file ≡ v.map_path_to_file

  change_found-HasResult :
      (v u : Vfs W L) (g : OpenFile W L → OpenFile W L) (o : Option (OpenFile W L))
      → o ≡ some before
      → Same v u
      → is_null (g before).retry_result ≡ false
      → (g before).opened ≡ before.opened
      → HasResult v (change_found k g o u)
  change_found-HasResult v u g none e same result opened = absurd cc
  change_found-HasResult v u g (some f) e (found, db, paths) result opened =
      let same_file : f ≡ before = cc in
      record {
        after = g f;
        found = get_elem?-set u.open_files k (g f) found;
        result = ap (λ x. is_null (g x).retry_result) same_file ∙ result;
        opened = ap (λ x. (g x).opened) same_file ∙ opened;
        db = db;
        paths = paths;
      }

  module _ (p : Platform W L) (sys : System) where
    close_handle_of-Same :
        (v u : Vfs W L) (h : Handle) → Same v u → Same v (close_handle_of sys h u).1
    unfolding close_handle_of
    close_handle_of-Same v u (shared_handle i is_closed) same = same
    close_handle_of-Same v u (local_handle i) same = same

    give_up_open-HasResult :
        (e : VfsError) (hs : List Handle) (v u : Vfs W L)
        → Same v u
        → HasResult v (give_up_open p sys k e hs u)
    unfolding give_up_open
    give_up_open-HasResult e [] v u same =
        change_found-HasResult v u _ (get_elem? u.open_files k) same.0 same refl refl
    give_up_open-HasResult e (h ∷ hs) v u same =
        give_up_open-HasResult e hs v (close_handle_of sys h u).1 (close_handle_of-Same v u h same)

    retained-Same :
        (i : ℕ) (r : Result LeaseError _ × Context) (v u : Vfs W L)
        → Same v u
        → Same v (retained i r u).1
    retained-Same i (err e, c) v u same = same
    retained-Same i (ok owner, c) v u same = same

    open_found-Same : (o : Option ℕ) (v u : Vfs W L) → Same v u → Same v (open_found sys o u).1
    unfolding new_shared_handle
    open_found-Same none v u same = same
    open_found-Same (some i) v u same =
        retained-Same i
          (retain_memory_write_ahead_runtime_handle sys.now sys.reload sys.lease_owner_id u.context)
          v u same

    open_shared_handle-Same :
        (path : String) (v u : Vfs W L) → Same v u → Same v (open_shared_handle sys path u).1
    unfolding open_shared_handle
    open_shared_handle-Same path v u same =
        open_found-Same (get_memory_write_ahead_file (normalized sys) path u) v u same

    finish_open-HasResult :
        (h h0 h1 : Handle) (out : Result VfsError W × List SharedFile) (v u : Vfs W L)
        → Same v u
        → HasResult v (finish_open p sys k h h0 h1 out u)
    finish_open-HasResult h h0 h1 (err e, files) v u same =
        give_up_open-HasResult e (h0 ∷ h1 ∷ h ∷ []) v _ same
    finish_open-HasResult h h0 h1 (ok w, files) v u same =
        change_found-HasResult v _ _ (get_elem? u.open_files k) same.0 same refl refl

    third_open-HasResult :
        (name : String) (h h0 : Handle) (out : Result VfsError Handle × Vfs W L) (v : Vfs W L)
        → Same v out.1
        → HasResult v (third_open p sys k name h h0 out)
    third_open-HasResult name h h0 (err e, u) v same = give_up_open-HasResult e (h ∷ []) v u same
    third_open-HasResult name h h0 (ok h1, u) v same =
        finish_open-HasResult h h0 h1 (p.new_write_ahead name (shared_store u)) v u same

    second_open-HasResult :
        (name : String) (h : Handle) (out : Result VfsError Handle × Vfs W L) (v : Vfs W L)
        → Same v out.1
        → HasResult v (second_open p sys k name h out)
    second_open-HasResult name h (err e, u) v same = give_up_open-HasResult e (h ∷ []) v u same
    second_open-HasResult name h (ok h0, u) v same =
        third_open-HasResult name h h0 _ v (open_shared_handle-Same _ v u same)

    first_open-HasResult :
        (name : String) (out : Result VfsError Handle × Vfs W L) (v : Vfs W L)
        → Same v out.1
        → HasResult v (first_open p sys k name out)
    first_open-HasResult name (err e, u) v same = give_up_open-HasResult e [] v u same
    first_open-HasResult name (ok h, u) v same =
        second_open-HasResult name h _ v (open_shared_handle-Same _ v u same)

    pub retry_open-HasResult :
        (name : String) (v : Vfs W L)
        → get_elem? v.open_files k ≡ some before
        → HasResult v (retry_open_operation p sys k name v)
    unfolding retry_open_operation
    retry_open-HasResult name v found =
        first_open-HasResult name _ v (open_shared_handle-Same name v v (found, refl, refl))

-- What an open has come to: the file under its id, or CANTOPEN and the path free for another try.
abbrev pub IsDecided : {W L : Type 0} → ℕ → ℕ → String → Vfs W L → ℕ × Vfs W L → Type 0
IsDecided k file_id name v (code, t) =
    ((code ≡ sqlite_ok) × (find_id file_id t.map_id_to_file ≡ some k))
    ⊎ ((code ≡ sqlite_cantopen)
        × (t.map_path_to_file ≡ delete_key name v.map_path_to_file)
        × (find_id file_id t.map_id_to_file ≡ none))

module _ {W L : Type 0} (p : Platform W L) (sys : System) where
  changed-maps :
      (k : ℕ) (g : OpenFile W L → OpenFile W L) (o : Option (OpenFile W L)) (v : Vfs W L)
      → (change_found k g o v).map_path_to_file ≡ v.map_path_to_file
  changed-maps k g none v = refl
  changed-maps k g (some f) v = refl

  open_by_result-IsDecided :
      (name name' : String) (file_id k : ℕ) (result : RetryState) (f : OpenFile W L) (u : Vfs W L)
      → is_null result ≡ false
      → f.opened ≡ false
      → IsDecided k file_id name' u (open_by_result p sys name name' file_id k result f u)
  open_by_result-IsDecided name name' file_id k no_result f u left unopened = absurd cc
  open_by_result-IsDecided name name' file_id k done f u left unopened =
      inl (refl, rw ((==_iff file_id file_id).1 refl) refl)
  open_by_result-IsDecided name name' file_id k (rejected e) f u left unopened = rw unopened (
      inr (
        refl,
        ap (delete_key name') (changed-maps k _ (get_elem? u.open_files k) u),
        find_id-delete_id file_id _,
      ))

  -- Once the retry of the first open of the primary database has run, the next jOpen is decided, without a
  -- further retry: the file id refers to the file, or the code is CANTOPEN, the id refers to none, and the
  -- path is given up.
  pub j_open-retry_open :
      (z_name : Option String) (file_id flags k : ℕ) (f : OpenFile W L) (v : Vfs W L)
      → sys.normalize z_name ≡ v.db_filename
      → has_flag flags sqlite_open_main_db ≡ true
      → find_key v.db_filename v.map_path_to_file ≡ some k
      → get_elem? v.open_files k ≡ some f
      → f.opened ≡ false
      → IsDecided k file_id
          (sys.normalize_again z_name)
          v
          (j_open p sys z_name file_id flags (retry_open_operation p sys k f.z_name v))
  unfolding j_open open_primary
  j_open-retry_open z_name file_id flags k f v name main path found unopened =
      let u = retry_open_operation p sys k f.z_name v in
      let r = retry_open-HasResult k f p sys f.z_name v found in
      let name' = sys.normalize_again z_name in
      let run : j_open p sys z_name file_id flags u
          ≡ open_by_result p sys v.db_filename name' file_id k r.after.retry_result r.after u =
        rw
          (
            name,
            main,
            r.db,
            same_text_refl v.db_filename,
            r.paths,
            path,
            r.found,
            r.opened ∙ unopened,
            r.result,
          )
          refl in
      subst (λ x. IsDecided k file_id name' v x) (sym run)
        (subst
          (λ paths.
            IsDecided k file_id name' (record v { map_path_to_file = paths })
              (open_by_result p sys v.db_filename name' file_id k r.after.retry_result r.after u))
          r.paths
          (open_by_result-IsDecided v.db_filename name' file_id k r.after.retry_result r.after u
            r.result (r.opened ∙ unopened)))
