-- ===== src/FileLock/Tests.antt =====
-- Schedules of the file lock's threads, and the theorems on the systems that they reach.
use memory_write_ahead_vfs.Base.{
  ℕ, suc, ◌+◌, ◌≡◌, refl, true, false, List, [], ◌∷◌, pos, negsuc, if◌then◌else◌, ◌==◌,
}
use memory_write_ahead_vfs.SharedFile.{LockWords, no_lock}
use memory_write_ahead_vfs.FileLock.{
  idle, trying, holding, releasing, recovering, rechecking, looking, Choice, System, step, access,
  judge, initial, Reach, start, later, next_robbed, owner_word,
}
use memory_write_ahead_vfs.FileLock.Exclusion.{mutual_exclusion, robbed-keeps-lock}
use memory_write_ahead_vfs.FileLock.Alone.{
  alone, age_at, is_abandoned, recovered_words, recovery_length, recover-alone,
}
use memory_write_ahead_vfs.FileLock.Acquire.{held_words, after, acquire-abandoned}
use memory_write_ahead_vfs.FileLock.Orphan.{release_during_claim-orphans}
use memory_write_ahead_vfs.Clock.{
  get_memory_write_ahead_lock_age_ms, get_memory_write_ahead_lock_clock_ms,
}

abbrev at_ms : ℕ → Choice
at_ms now = record { now = now; is_worker_blocking_context = true; refreshes = false }

abbrev own_id : ℕ → ℕ
own_id i = i

-- The system after a schedule of threads and times.
play : (s : System) → Reach own_id s → List (ℕ × ℕ) → (t : System) × Reach own_id t
play s r [] = (s, r)
play s r ((i, now) ∷ rest) =
    play (step own_id 30000 i (at_ms now) s) (later i 30000 (at_ms now) r) rest

-- Thread 0 takes the lock.
held : (t : System) × Reach own_id t
held = play initial start ((0, 1) ∷ (0, 1) ∷ (0, 1) ∷ (0, 1) ∷ (0, 1) ∷ [])

mutual_exclusion_example : ◌≡◌ {A = ℕ} 0 0
unfolding held play step access initial next_robbed
mutual_exclusion_example = mutual_exclusion (λ i j e. e) held.1 0 0 refl refl refl refl

-- A minute later thread 1 recovers it.
taken_away : (t : System) × Reach own_id t
taken_away =
    play held.0 held.1 (
      (1, 60000) ∷ (1, 60000) ∷ (1, 60000) ∷ (1, 60000) ∷ (1, 60000) ∷ (1, 60000) ∷ (1, 60000) ∷ [])

robbed-keeps-lock_example :
    (step own_id 30000 0 (at_ms 60001) taken_away.0).words.lock ≡ taken_away.0.words.lock
unfolding held taken_away play step access initial next_robbed judge
    get_memory_write_ahead_lock_age_ms get_memory_write_ahead_lock_clock_ms
robbed-keeps-lock_example =
    robbed-keeps-lock (λ i j e. e) taken_away.1 0 30000 (at_ms 60001) refl refl

-- A lock of thread 4, stamped at 1.
abbrev old_lock : LockWords
old_lock = record no_lock { lock = pos 5; lock_owner = pos 5; lock_heartbeat_ms = pos 1 }

recover-alone_example :
    alone
      (recovery_length 30000 (pos 5) (age_at (at_ms 60000) old_lock))
      7
      30000
      (λ k. at_ms 60000)
      recovering
      old_lock
    ≡ (
      looking,
      if is_abandoned 30000 (pos 5) (age_at (at_ms 60000) old_lock)
          then recovered_words old_lock
          else old_lock,
    )
recover-alone_example = recover-alone 7 30000 (λ k. at_ms 60000) old_lock

acquire-abandoned_example :
    alone (suc (6 + 5)) 7 30000 (λ k. at_ms 60000) trying old_lock
    ≡ (holding, held_words 7 (after 6 (λ k. at_ms 60000) 2) (recovered_words old_lock))
unfolding get_memory_write_ahead_lock_age_ms get_memory_write_ahead_lock_clock_ms
acquire-abandoned_example = acquire-abandoned 7 30000 (λ k. at_ms 60000) old_lock 6 refl refl

-- Thread 0 releases while thread 1 has claimed its lock and sees a new heartbeat.
abbrev crossing : System
crossing = record {
  words = record no_lock { lock = negsuc 0; lock_owner = pos 1; lock_heartbeat_ms = pos 60000 };
  pc = λ i. if i == 0 then releasing else rechecking (pos 1) (pos 1);
  robbed = λ i. false;
}

orphan_example :
    let t =
      step own_id 30000 1
        (at_ms 60000)
        (step own_id 30000 1 (at_ms 60000) (step own_id 30000 0 (at_ms 60000) crossing)) in
    (t.words.lock ≡ owner_word 0) × (t.pc 0 ≡ idle) × (t.pc 1 ≡ looking)
orphan_example =
    release_during_claim-orphans own_id 0 1 30000 (at_ms 60000) (pos 1) crossing refl refl refl refl
      refl
