-- ===== src/Vfs/TemporaryLife.antt =====
-- A temporary file from its open to its close (src/MemoryWriteAheadVFS.ts): jOpen, jAccess and jClose.
use Prim.Native.String.{String}
use memory_write_ahead_vfs.Base.{
  ℕ, true, false, Option, none, some, List, [], ◌∷◌, ◌++◌, length, get_elem?, set, get_elem?-set,
  ◌≡◌, refl, sym, ap, ◌∙◌, Bool-cases, inl, inr, ◌==◌, ok, ==_iff,
}
use mathlib.Core.Path.{subst}
use memory_write_ahead_vfs.Registry.Keys.{
  find_key-delete_key, delete_key, find_key, store_key, find_key-store_key,
}
use memory_write_ahead_vfs.Vfs.{
  Platform, OpenFile, Handle, after, local_handle, has_flag, sqlite_ok, sqlite_open_main_db,
  sqlite_open_wal, sqlite_open_super_journal, sqlite_open_create, sqlite_open_deleteonclose,
}
use memory_write_ahead_vfs.Vfs.Files.{
  Vfs, find_id, file_at, delete_id, store_id, get_memory_write_ahead_file,
}
use memory_write_ahead_vfs.Vfs.OpenRetry.{
  System, normalized, close_handle_of, change_found, change_file,
}
use memory_write_ahead_vfs.Vfs.Opening.{
  new_open_file, claim_path, catch_open, admit, handle_of, open_kind, open_file,
  open_temporary_handle, j_open,
}
use memory_write_ahead_vfs.Vfs.Closing.{j_access, close_found, j_close}

pub get_elem?-last :
    {A : Type 0} (xs : List A) (x : A) → get_elem? (xs ++ x ∷ []) (length xs) ≡ some x
get_elem?-last [] x = refl
get_elem?-last (y ∷ ys) x = get_elem?-last ys x

pub find_id-delete_id : (key : ℕ) (table : List (ℕ × ℕ)) → find_id key (delete_id key table) ≡ none
find_id-delete_id key [] = refl
find_id-delete_id key (entry ∷ table) = elim (Bool-cases (entry.0 == key)) [
  | inl e ↦ rw e (find_id-delete_id key table)
  | inr e ↦ rw (e, e) (find_id-delete_id key table)
]

-- The flags of a temporary file that is made, and deleted when it is closed.
pub record AreTemporary (flags : ℕ) : Type 0 where
  pub no_main : has_flag flags sqlite_open_main_db ≡ false
  pub no_wal : has_flag flags sqlite_open_wal ≡ false
  pub no_super : has_flag flags sqlite_open_super_journal ≡ false
  pub creates : has_flag flags sqlite_open_create ≡ true
  pub deletes : has_flag flags sqlite_open_deleteonclose ≡ true

module _ {W L : Type 0} (p : Platform W L) (sys : System) where
  -- A path that names nothing yet.
  pub record IsNew (path name : String) (v : Vfs W L) : Type 0 where
    pub normalizes : sys.normalize (some path) ≡ name
    pub not_shared : get_memory_write_ahead_file (normalized sys) name v ≡ none
    pub not_local : find_key name v.local_files ≡ none
    pub not_open : find_key name v.map_path_to_file ≡ none

  abbrev opened_file : String → ℕ → Vfs W L → OpenFile W L
  opened_file name flags v = record (new_open_file name flags) {
    access_handle = some (local_handle (length v.local_store));
  }

  -- The VFS with the path claimed, with the local file made, with the handle, and with the id.
  abbrev claimed : String → ℕ → Vfs W L → Vfs W L
  claimed name flags v = record v {
    open_files = v.open_files ++ new_open_file name flags ∷ [];
    map_path_to_file = store_key name (length v.open_files) v.map_path_to_file;
  }

  abbrev made : String → Vfs W L → Vfs W L
  made name v = record v {
    local_store = v.local_store ++ record { contents = []; size = 0 } ∷ [];
    local_files = store_key name (length v.local_store) v.local_files;
  }

  abbrev handled : String → ℕ → Vfs W L → Vfs W L
  handled name flags v =
      let u = made name (claimed name flags v) in
      record u { open_files = set u.open_files (length v.open_files) (opened_file name flags v) }

  abbrev opened : String → ℕ → ℕ → Vfs W L → Vfs W L
  opened name file_id flags v =
      let u = handled name flags v in
      record u { map_id_to_file = store_id file_id (length v.open_files) u.map_id_to_file }

  abbrev with_handle : ℕ → OpenFile W L → OpenFile W L
  with_handle n f = record f { access_handle = some (local_handle n) }

  open_kind-temporary :
      (name : String) (flags i : ℕ) (u : Vfs W L)
      → AreTemporary flags
      → find_key name u.local_files ≡ none
      → open_kind p sys name flags i none u
        ≡ (ok tt, change_file i (with_handle (length u.local_store)) (made name u))
  unfolding open_temporary_handle
  open_kind-temporary name flags i u t free =
      rw (t.no_main, t.no_wal, t.no_super, t.creates, free) refl

  abbrev open_claimed_file : String → String → ℕ → ℕ → ℕ × Vfs W L → Option Handle → ℕ × Vfs W L
  open_claimed_file name name' file_id flags out handle = catch_open name' file_id (
      after (open_kind p sys name flags out.0 handle out.1)
        (λ _ t. let admitted = admit file_id out.0 t in (ok (admitted.0), admitted.1)))

  j_open-temporary :
      (path name : String) (file_id flags : ℕ) (v : Vfs W L)
      → AreTemporary flags
      → IsNew path name v
      → j_open p sys (some path) file_id flags v ≡ (sqlite_ok, opened name file_id flags v)
  unfolding j_open open_file
  j_open-temporary path name file_id flags v t n =
      let name' = sys.normalize_again (some path) in
      let u = claimed name flags v in
      let new : OpenFile W L = new_open_file name flags in
      let last = get_elem?-last v.open_files new in
      let i = length v.open_files in
      let opens : j_open p sys (some path) file_id flags v
          ≡ open_file p sys name name' file_id flags v =
        rw (n.normalizes, t.no_main) refl in
      let claims : open_file p sys name name' file_id flags v
          ≡ open_claimed_file name name' file_id flags (i, u)
              (handle_of p sys (get_elem? u.open_files i)) =
        ap
          (λ o. open_claimed_file name name' file_id flags (claim_path name flags o v) (
            handle_of p sys
              (get_elem? (claim_path name flags o v).1.open_files (claim_path name flags o v).0)))
          n.not_open in
      opens
      ∙ (claims
          ∙ (ap (λ o. open_claimed_file name name' file_id flags (i, u) (handle_of p sys o)) last
              ∙ (ap
                    (λ out. catch_open name' file_id (
                      after out
                        (λ _ t. let admitted = admit file_id i t in (ok (admitted.0), admitted.1))))
                    (open_kind-temporary name flags i u t n.not_local)
                  ∙ ap
                      (λ o.
                        admit file_id i
                          (change_found i (with_handle (length v.local_store)) o (made name u)))
                      last)))

  abbrev closed : String → ℕ → ℕ → Vfs W L → Vfs W L
  closed name file_id flags v =
      let u = opened name file_id flags v in
      let t = change_file (length v.open_files) (with_handle (length v.local_store)) u in
      record t {
        local_files = delete_key name t.local_files;
        map_path_to_file = delete_key name t.map_path_to_file;
        map_id_to_file = delete_id file_id t.map_id_to_file;
      }

  j_close-temporary :
      (name : String) (file_id flags : ℕ) (v : Vfs W L)
      → AreTemporary flags
      → j_close sys p file_id (opened name file_id flags v)
        ≡ (sqlite_ok, closed name file_id flags v)
  unfolding j_close close_handle_of
  j_close-temporary name file_id flags v t =
      let u = opened name file_id flags v in
      let i = length v.open_files in
      let id : find_id file_id u.map_id_to_file ≡ some i =
        rw ((==_iff file_id file_id).1 refl) refl in
      let file : get_elem? u.open_files i ≡ some (opened_file name flags v) =
        get_elem?-set (v.open_files ++ new_open_file name flags ∷ []) i (opened_file name flags v)
          (get_elem?-last v.open_files (new_open_file name flags)) in
      ap (λ o. close_found sys p file_id o (file_at o u) u) id
      ∙ (ap (λ o. close_found sys p file_id (some i) o u) file ∙ rw (t.no_main, t.deletes) refl)

  -- A change of an open file changes no table of paths.
  changed-tables :
      (k : ℕ) (g : OpenFile W L → OpenFile W L) (o : Option (OpenFile W L)) (v : Vfs W L)
      → ((change_found k g o v).local_files ≡ v.local_files)
        × ((change_found k g o v).shared_files ≡ v.shared_files)
        × ((change_found k g o v).map_path_to_file ≡ v.map_path_to_file)
        × ((change_found k g o v).map_id_to_file ≡ v.map_id_to_file)
  changed-tables k g none v = (refl, refl, refl, refl)
  changed-tables k g (some f) v = (refl, refl, refl, refl)

  abbrev pub Opens : String → ℕ → ℕ × Vfs W L → Type 0
  Opens path file_id (code, v) =
      (code ≡ sqlite_ok)
      × (j_access sys path v ≡ (sqlite_ok, true))
      × ((i : ℕ) × (find_id file_id v.map_id_to_file ≡ some i))

  abbrev pub Closes : String → String → ℕ → ℕ × Vfs W L → Type 0
  Closes path name file_id (code, v) =
      (code ≡ sqlite_ok)
      × (j_access sys path v ≡ (sqlite_ok, false))
      × (find_id file_id v.map_id_to_file ≡ none)
      × (find_key name v.map_path_to_file ≡ none)

  -- A temporary file under a new path is there after its open, under the file id, and after its close with
  -- DELETEONCLOSE neither the file nor the id nor the path is.
  pub j_close-j_open :
      (path name : String) (file_id flags : ℕ) (v : Vfs W L)
      → AreTemporary flags
      → IsNew path name v
      → (let out = j_open p sys (some path) file_id flags v in
          Opens path file_id out × Closes path name file_id (j_close sys p file_id out.1))
  unfolding j_access get_memory_write_ahead_file
  j_close-j_open path name file_id flags v t n =
      let i = length v.open_files in
      let u = opened name file_id flags v in
      let w = change_file i (with_handle (length v.local_store)) u in
      let opens = j_open-temporary path name file_id flags v t n in
      let closes : j_close sys p file_id (j_open p sys (some path) file_id flags v).1
          ≡ (sqlite_ok, closed name file_id flags v) =
        ap (λ out. j_close sys p file_id out.1) opens ∙ j_close-temporary name file_id flags v t in
      let (local, shared, paths, ids) =
        changed-tables i (with_handle (length v.local_store)) (get_elem? u.open_files i) u in
      (
        subst (λ out. Opens path file_id out) (sym opens)
            (
              refl,
              rw
                  (
                    n.normalizes,
                    n.not_shared,
                    find_key-store_key name (length v.local_store) v.local_files,
                  )
                  refl,
              (i, rw ((==_iff file_id file_id).1 refl) refl),
            ),
        subst (λ out. Closes path name file_id out) (sym closes)
            (
              refl,
              rw (n.normalizes, shared, n.not_shared, find_key-delete_key name w.local_files) refl,
              find_id-delete_id file_id w.map_id_to_file,
              find_key-delete_key name w.map_path_to_file,
            ),
      )
