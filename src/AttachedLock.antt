-- ===== src/AttachedLock.antt =====
-- The transaction lock of an attached database (src/MemoryWriteAheadVFS.ts): #tryLockAttachedDatabase,
-- #releaseAttachedDatabaseLock and #retryLockAttachedDatabase, over the `TransactionWords` of the
-- shared file. `meanwhile` is what other contexts do to the slots between two accesses.
pub mod Laws
pub mod Quarantine
mod Tests
use memory_write_ahead_vfs.Base.{
  ℕ, zero, suc, Bool, true, false, ◌&&◌, ◌||◌, not, List, [], ◌∷◌, ℤ, pos, neg, eqb_ℤ,
  if◌then◌else◌, Result, ok, err,
}
use memory_write_ahead_vfs.SharedFile.{TransactionWords}

-- The fields of MemoryWriteAheadOpenFile that the lock reads; an id 0 is one that is missing.
pub record AttachedFile : Type 0 where
  pub attached_transaction_lock_held : Bool
  pub has_shared_file : Bool
  pub attached_transaction_lock_owner_id : ℤ
  pub attached_transaction_lock_runtime_owner_id : ℤ

pub data AttachedError : Type 0 where
  missing_lock_state quarantined lost_claim timed_out : AttachedError

pub record Attached : Type 0 where
  pub file : AttachedFile
  pub words : TransactionWords

abbrev pub Others : Type 0
Others = TransactionWords → TransactionWords

abbrev pub with_held : Bool → AttachedFile → AttachedFile
with_held held f = record f { attached_transaction_lock_held = held }

-- From the first compare-exchange that has won on.
unfoldable pub finish_claim :
    Others → AttachedFile → TransactionWords → Result AttachedError Bool × Attached
finish_claim meanwhile f w =
    let claimed = meanwhile (record w {
      transaction_lock = neg f.attached_transaction_lock_owner_id;
      transaction_lock_runtime_owner = f.attached_transaction_lock_runtime_owner_id;
    }) in
    if eqb_ℤ claimed.transaction_lock (neg f.attached_transaction_lock_owner_id)
    then (
      ok true,
      record {
        file = with_held true f;
        words = record claimed { transaction_lock = f.attached_transaction_lock_owner_id };
      },
    )
    else (err lost_claim, record { file = f; words = claimed })

unfoldable pub try_lock_attached_database : Others → Attached → Result AttachedError Bool × Attached
unfolding finish_claim
try_lock_attached_database meanwhile a =
    if a.file.attached_transaction_lock_held
    then (ok true, a)
    else if not a.file.has_shared_file
        || (eqb_ℤ a.file.attached_transaction_lock_owner_id (pos 0)
            || eqb_ℤ a.file.attached_transaction_lock_runtime_owner_id (pos 0))
    then (err missing_lock_state, a)
    else if not (eqb_ℤ a.words.abandoned_transaction (pos 0))
    then (err quarantined, a)
    else if not (eqb_ℤ a.words.transaction_lock (pos 0))
    then (ok false, a)
    else finish_claim meanwhile a.file a.words

-- The last compare-exchange frees the word only if it still holds the release claim.
abbrev pub unclaim : ℤ → TransactionWords → TransactionWords
unclaim claim w =
    if eqb_ℤ w.transaction_lock claim then record w { transaction_lock = pos 0 } else w

unfoldable pub release_attached_database_lock : Others → Attached → Attached
release_attached_database_lock meanwhile a =
    let f = a.file in
    let w = a.words in
    let owner = f.attached_transaction_lock_owner_id in
    if not f.attached_transaction_lock_held || (not f.has_shared_file || eqb_ℤ owner (pos 0))
    then a
    else record {
      file = with_held false f;
      words =
          if eqb_ℤ w.transaction_lock owner
          then unclaim (neg owner) (
              meanwhile
                (record w { transaction_lock = neg owner; transaction_lock_runtime_owner = pos 0 }))
          else w;
    }

-- A try of #retryLockAttachedDatabase: what the other contexts do between its accesses, whether the time
-- is up after it, and what they do during the wait otherwise.
pub record Try : Type 0 where
  pub within : Others
  pub is_expired : Bool
  pub during : Others

-- What the retry leaves in `retryResult`; `waiting` is a retry that has not ended within the tries
-- listed.
pub data RetryResult : Type 0 where
  acquired waiting : RetryResult
  failed : AttachedError → RetryResult

-- The catch block; `releasing` is what the other contexts do between the accesses of its release.
unfoldable pub give_up : Others → AttachedError → Attached → RetryResult × Attached
unfolding release_attached_database_lock
give_up releasing e a = (failed e, release_attached_database_lock releasing a)

-- The last argument is the result of the round's try, `rest` the rounds after a wait.
unfoldable pub after_try :
    Others
    → Try
    → (Attached → RetryResult × Attached)
    → Result AttachedError Bool × Attached
    → RetryResult × Attached
unfolding give_up
after_try releasing t rest (err e, a) = give_up releasing e a
after_try releasing t rest (ok true, a) = (acquired, a)
after_try releasing t rest (ok false, a) =
    let next = rest (record a { words = t.during a.words }) in
    if t.is_expired then give_up releasing timed_out a else next

unfoldable pub retry_lock_attached_database : Others → List Try → Attached → RetryResult × Attached
unfolding try_lock_attached_database after_try
retry_lock_attached_database releasing [] a = (waiting, a)
retry_lock_attached_database releasing (t ∷ ts) a =
    after_try releasing t (retry_lock_attached_database releasing ts)
      (try_lock_attached_database t.within a)
