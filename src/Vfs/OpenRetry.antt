-- ===== src/Vfs/OpenRetry.antt =====
-- The access handles of the VFS (src/MemoryWriteAheadVFS.ts): #openSharedHandle, the closing of a handle,
-- and #retryOpen, which opens the handles of the primary database and its write-ahead.
use Prim.Native.String.{String, ◌++◌}
use memory_write_ahead_vfs.Base.{
  ℕ, Bool, false, Option, none, some, List, [], ◌∷◌, ℤ, pos, eqb_ℤ, ◌==◌, Result, ok, err,
  get_elem?, set, if◌then◌else◌,
}
use memory_write_ahead_vfs.SharedFile.{SharedFile}
use memory_write_ahead_vfs.Lease.{Context, LeaseError}
use memory_write_ahead_vfs.Lease.Operations.{retain_memory_write_ahead_runtime_handle}
use memory_write_ahead_vfs.AccessHandle.{close_handle}
use memory_write_ahead_vfs.Vfs.{
  VfsError, file_missing, lease_error, Platform, RetryState, done, rejected, Handle, shared_handle,
  local_handle, OpenFile,
}
use memory_write_ahead_vfs.Vfs.Files.{
  Vfs, shared_store, with_shared_store, get_memory_write_ahead_file,
}

-- The system: the URL parser, the time, the second load of a heartbeat in a recovery, and the random ids
-- of a lease and of a transaction lock.
pub record System : Type 0 where
  pub normalize : Option String → String
  -- a second call, which makes another random name of null
  pub normalize_again : Option String → String
  pub now : ℕ
  pub reload : ℕ → ℤ → ℤ
  pub lease_owner_id : ℤ
  pub lock_owner_id : ℤ

abbrev pub normalized : System → String → String
normalized sys path = sys.normalize (some path)

-- `??=`
abbrev pub or_new : {A : Type 0} → Option A → A → Option A
or_new none a = some a
or_new (some b) a = some b

abbrev pub or_id : ℤ → ℤ → ℤ
or_id old new = if eqb_ℤ old (pos 0) then new else old

unfoldable pub get_write_ahead_name_from_db_name : String → ℕ → String
get_write_ahead_name_from_db_name db_name index =
    if index == 0 then db_name ++ "-wa0" else db_name ++ "-wa1"

module _ {W L : Type 0} where
  abbrev pub retained :
      ℕ → Result LeaseError ℤ × Context → Vfs W L → Result VfsError Handle × Vfs W L
  retained i (err e, c) v = (err (lease_error e), record v { context = c })
  retained i (ok owner, c) v = (ok (shared_handle i false), record v { context = c })

  module _ (sys : System) where
    -- The constructor of the access handle counts it in the lease.
    unfoldable pub new_shared_handle : ℕ → Vfs W L → Result VfsError Handle × Vfs W L
    unfolding retain_memory_write_ahead_runtime_handle
    new_shared_handle i v =
        retained i
          (retain_memory_write_ahead_runtime_handle sys.now sys.reload sys.lease_owner_id v.context)
          v

    abbrev pub open_found : Option ℕ → Vfs W L → Result VfsError Handle × Vfs W L
    open_found none v = (err file_missing, v)
    open_found (some i) v = new_shared_handle i v

    unfoldable pub open_shared_handle : String → Vfs W L → Result VfsError Handle × Vfs W L
    unfolding new_shared_handle get_memory_write_ahead_file
    open_shared_handle pathname v =
        open_found (get_memory_write_ahead_file (normalized sys) pathname v) v

    abbrev pub close_counted : ℕ → Bool × Context → Vfs W L → Handle × Vfs W L
    close_counted i out v = (shared_handle i out.0, record v { context = out.1 })

    -- Closing a local handle changes nothing but its own flag, which nothing reads.
    unfoldable pub close_handle_of : Handle → Vfs W L → Handle × Vfs W L
    unfolding close_handle
    close_handle_of (shared_handle i is_closed) v =
        close_counted i (close_handle sys.now (is_closed, v.context)) v
    close_handle_of (local_handle i) v = (local_handle i, v)

  abbrev pub change_found :
      ℕ → (OpenFile W L → OpenFile W L) → Option (OpenFile W L) → Vfs W L → Vfs W L
  change_found i g none v = v
  change_found i g (some f) v = record v { open_files = set v.open_files i (g f) }

  abbrev pub change_file : ℕ → (OpenFile W L → OpenFile W L) → Vfs W L → Vfs W L
  change_file i g v = change_found i g (get_elem? v.open_files i) v

  abbrev pub retry_left : RetryState → OpenFile W L → OpenFile W L
  retry_left r f = record f { retry_result = r }

  module _ (p : Platform W L) (sys : System) where
    -- The catch block: an error with the handles that the variables hold by then.
    unfoldable pub give_up_open : ℕ → VfsError → List Handle → Vfs W L → Vfs W L
    unfolding close_handle_of
    give_up_open i e [] v = change_file i (retry_left (rejected e)) v
    give_up_open i e (h ∷ hs) v = give_up_open i e hs (close_handle_of sys h v).1

    abbrev pub finish_open :
        ℕ → Handle → Handle → Handle → Result VfsError W × List SharedFile → Vfs W L → Vfs W L
    finish_open i h h0 h1 (err e, files) v =
        give_up_open i e (h0 ∷ h1 ∷ h ∷ []) (with_shared_store files v)
    finish_open i h h0 h1 (ok w, files) v =
        change_file i
          (λ f. record f {
            access_handle = some h;
            wa_handles = h0 ∷ h1 ∷ [];
            write_ahead = some w;
            retry_result = done;
          })
          (with_shared_store files v)

    -- `waHandles` holds both handles or none.
    abbrev pub third_open :
        ℕ → String → Handle → Handle → Result VfsError Handle × Vfs W L → Vfs W L
    third_open i name h h0 (err e, v) = give_up_open i e (h ∷ []) v
    third_open i name h h0 (ok h1, v) =
        finish_open i h h0 h1 (p.new_write_ahead name (shared_store v)) v

    abbrev pub second_open : ℕ → String → Handle → Result VfsError Handle × Vfs W L → Vfs W L
    second_open i name h (err e, v) = give_up_open i e (h ∷ []) v
    second_open i name h (ok h0, v) =
        third_open i name h h0 (open_shared_handle sys (get_write_ahead_name_from_db_name name 1) v)

    abbrev pub first_open : ℕ → String → Result VfsError Handle × Vfs W L → Vfs W L
    first_open i name (err e, v) = give_up_open i e [] v
    first_open i name (ok h, v) =
        second_open i name h (open_shared_handle sys (get_write_ahead_name_from_db_name name 0) v)

    -- #retryOpen, of the file `i` with the name.
    unfoldable pub retry_open_operation : ℕ → String → Vfs W L → Vfs W L
    unfolding give_up_open open_shared_handle get_write_ahead_name_from_db_name
    retry_open_operation i name v = first_open i name (open_shared_handle sys name v)
