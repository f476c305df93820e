-- ===== src/FileLock.antt =====
-- The lock of a shared file (src/MemoryWriteAheadVFS.ts): the acquire, refresh, release and recover
-- functions as programs of threads that touch the lock's slots one atomic access at a time.
-- The slots are `LockWords`; 0 is unlocked, an owner id is held, its negation a recovery claim.
mod Effects
pub mod Exclusion
pub mod Alone
pub mod Acquire
pub mod Orphan
mod Tests
use memory_write_ahead_vfs.Base.{
  ℕ, suc, ◌+◌, Bool, true, false, Option, none, some, ℤ, pos, negsuc, neg, eqb_ℤ, ltb_ℤ, leb,
  pos_part, neg_part, atomic_add, if◌then◌else◌, ◌==◌, ◌≡◌,
}
use memory_write_ahead_vfs.SharedFile.{LockWords}
use memory_write_ahead_vfs.Clock.{
  get_memory_write_ahead_lock_clock_ms, get_memory_write_ahead_lock_age_ms,
}

-- createFileLockOwnerId gives `value & 0x3fffffff || 1`, a positive number: the id `n` stands for
-- `n + 1`.
abbrev pub owner_word : ℕ → ℤ
owner_word n = pos (suc n)

abbrev pub get_file_lock_recovery_claim : ℤ → ℤ
get_file_lock_recovery_claim owner = neg owner

-- The next access of a thread to the slots. `seen` is a value of the lock word that it has loaded,
-- `beat` of the heartbeat.
pub data Pc : Type 0 where
  -- outside acquire, and not holding
  idle : Pc
  -- acquireMemoryWriteAheadFileLock
  trying stamping claiming signing : Pc
  -- the operation under the lock, and refreshMemoryWriteAheadFileLockHeartbeat
  holding refreshing refreshing_owner refreshing_beat : Pc
  -- releaseMemoryWriteAheadFileLock
  releasing : Pc
  -- recoverAbandonedMemoryWriteAheadFileLock and finishRecoveredFileLock
  recovering : Pc
  judging : (seen : ℤ) → Pc
  seizing rechecking : (seen beat : ℤ) → Pc
  restoring : (seen : ℤ) → Pc
  finishing : (claim : ℤ) → Pc
  counting : Pc
  -- the load after the recovery, and waitForUnlock
  looking waiting : Pc

-- What a step depends on besides the slots: the time, whether the context may block, and whether
-- a holder refreshes its heartbeat or releases.
pub record Choice : Type 0 where
  pub now : ℕ
  pub is_worker_blocking_context : Bool
  pub refreshes : Bool

abbrev pub with_lock : ℤ → LockWords → LockWords
with_lock value w = record w { lock = value }

abbrev pub with_beat : ℕ → LockWords → LockWords
with_beat now w = record w { lock_heartbeat_ms = pos (get_memory_write_ahead_lock_clock_ms now) }

-- The decision of recoverAbandonedMemoryWriteAheadFileLock on what it has loaded.
unfoldable pub judge : ℕ → ℤ → ℤ → Option ℕ → Pc
judge stale seen beat none = if ltb_ℤ seen (pos 0) then finishing seen else looking
judge stale seen beat (some age) =
    if leb age stale
    then looking
    else if ltb_ℤ seen (pos 0)
    then finishing seen
    else seizing seen beat

-- One access of the thread with the owner id `owner`, and what it does next.
unfoldable pub access : ℕ → ℕ → Choice → Pc → LockWords → Pc × LockWords
access owner stale c idle w = (trying, w)
access owner stale c trying w = (if eqb_ℤ w.lock (pos 0) then stamping else recovering, w)
access owner stale c stamping w = (claiming, with_beat c.now w)
access owner stale c claiming w =
    if eqb_ℤ w.lock (pos 0) then (signing, with_lock (owner_word owner) w) else (recovering, w)
access owner stale c signing w = (holding, record w { lock_owner = owner_word owner })
access owner stale c holding w = (if c.refreshes then refreshing else releasing, w)
access owner stale c refreshing w =
    (if eqb_ℤ w.lock (owner_word owner) then refreshing_owner else holding, w)
access owner stale c refreshing_owner w =
    (if eqb_ℤ w.lock_owner (owner_word owner) then refreshing_beat else holding, w)
access owner stale c refreshing_beat w = (holding, with_beat c.now w)
access owner stale c releasing w =
    (idle, if eqb_ℤ w.lock (owner_word owner) then with_lock (pos 0) w else w)
access owner stale c recovering w = (if eqb_ℤ w.lock (pos 0) then looking else judging w.lock, w)
access owner stale c (judging seen) w = (
  judge stale seen w.lock_heartbeat_ms (
      get_memory_write_ahead_lock_age_ms w.lock_heartbeat_ms
        (get_memory_write_ahead_lock_clock_ms c.now)),
  w,
)
access owner stale c (seizing seen beat) w =
    if eqb_ℤ w.lock seen
    then (rechecking seen beat, with_lock (get_file_lock_recovery_claim seen) w)
    else (looking, w)
access owner stale c (rechecking seen beat) w = (
  if eqb_ℤ w.lock_heartbeat_ms beat
      then finishing (get_file_lock_recovery_claim seen)
      else restoring seen,
  w,
)
access owner stale c (restoring seen) w =
    (looking, if eqb_ℤ w.lock (get_file_lock_recovery_claim seen) then with_lock seen w else w)
access owner stale c (finishing claim) w =
    if eqb_ℤ w.lock claim then (counting, with_lock (pos 0) w) else (looking, w)
access owner stale c counting w = (
  looking,
  record w { recovered_abandoned_lock_count = atomic_add w.recovered_abandoned_lock_count 1 },
)
access owner stale c looking w = (if eqb_ℤ w.lock (pos 0) then trying else waiting, w)
access owner stale c waiting w = (
  if eqb_ℤ w.lock (pos 0) then trying else if c.is_worker_blocking_context then trying else idle,
  w,
)

-- From the compare-exchange that takes the lock to the one that releases it.
abbrev pub is_critical : Pc → Bool
is_critical signing = true
is_critical holding = true
is_critical refreshing = true
is_critical refreshing_owner = true
is_critical refreshing_beat = true
is_critical releasing = true
is_critical other = false

-- Any number of threads, interleaved in any order. `robbed` is no part of the program: it records
-- whose hold a recovery has ended since the thread last took the lock.
pub record System : Type 0 where
  pub words : LockWords
  pub pc : ℕ → Pc
  pub robbed : ℕ → Bool

-- The family of the threads with the value of one of them changed.
abbrev pub update : {A : Type 0} (family : ℕ → A) (changed : ℕ) (value : A) → ℕ → A
update family changed value thread = if thread == changed then value else family thread

unfoldable pub next_robbed : (ℕ → ℕ) → ℕ → Pc → ℤ → (ℕ → Bool) → ℕ → Bool
next_robbed owner i claiming lock robbed j =
    if eqb_ℤ lock (pos 0) then update robbed i false j else robbed j
next_robbed owner i (finishing claim) lock robbed j =
    if eqb_ℤ lock claim
    then if eqb_ℤ claim (get_file_lock_recovery_claim (owner_word (owner j)))
      then true
      else robbed j
    else robbed j
next_robbed owner i p lock robbed j = robbed j

-- Thread `i` makes its next access.
unfoldable pub step : (ℕ → ℕ) → ℕ → ℕ → Choice → System → System
step owner stale i c s =
    let (p, w) = access (owner i) stale c (s.pc i) s.words in
    record {
      words = w;
      pc = update s.pc i p;
      robbed = next_robbed owner i (s.pc i) s.words.lock s.robbed;
    }

-- A file whose lock nobody holds yet: every slot is 0.
unfoldable pub initial : System
initial = record {
  words = record {
    lock = pos 0;
    lock_owner = pos 0;
    lock_heartbeat_ms = pos 0;
    recovered_abandoned_lock_count = pos 0;
  };
  pc = λ i. idle;
  robbed = λ i. false;
}

-- The threads' owner ids are `owner`; their time-outs may differ.
pub data Reach (owner : ℕ → ℕ) : System → Type 0 where
  start : Reach owner initial
  later :
      (i stale : ℕ) (c : Choice) {s : System} → Reach owner s → Reach owner (step owner stale i c s)
