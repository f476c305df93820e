-- ===== src/FileLock/Exclusion.antt =====
-- Mutual exclusion of the file lock of src/MemoryWriteAheadVFS.ts.
use memory_write_ahead_vfs.Base.{ℕ, true, false, ◌==◌, ◌≡◌, sym, arith, inl, inr, Bool-cases}
use mathlib.Core.Path.{subst}
use memory_write_ahead_vfs.FileLock.{
  Choice, access, is_critical, System, update, next_robbed, step, initial, Reach, start, later,
}
use memory_write_ahead_vfs.FileLock.Effects.{
  Knows, access-Knows, access-Effect, Owns, mover-Owns, other-Owns, robbed-access,
}

record Inv (owner : ℕ → ℕ) (s : System) : Type 0 where
  knows : (j : ℕ) → Knows (s.pc j)
  owns : (j : ℕ) → Owns (owner j) (s.pc j) (s.robbed j) s.words.lock

step-Knows :
    (owner : ℕ → ℕ) (i stale : ℕ) (c : Choice) (s : System)
    → Inv owner s
    → (j : ℕ) → Knows ((step owner stale i c s).pc j)
unfolding step
step-Knows owner i stale c s inv j = elim (Bool-cases (j == i)) [
  | inl e ↦ rw e (access-Knows (owner i) stale c (s.pc i) s.words (inv.knows i))
  | inr e ↦ rw e (inv.knows j)
]

step-Owns :
    (owner : ℕ → ℕ)
    → ((i j : ℕ) → owner i ≡ owner j → i ≡ j)
    → (i stale : ℕ) (c : Choice) (s : System) → Inv owner s
    → (j : ℕ)
    → Owns
        (owner j)
        ((step owner stale i c s).pc j)
        ((step owner stale i c s).robbed j)
        (step owner stale i c s).words.lock
unfolding step
step-Owns owner inj i stale c s inv j = elim (Bool-cases (j == i)) [
  | inl e ↦
      subst
        (λ k.
          Owns (owner k) (update s.pc i (access (owner i) stale c (s.pc i) s.words).0 k)
            (next_robbed owner i (s.pc i) s.words.lock s.robbed k)
            (access (owner i) stale c (s.pc i) s.words).1.lock)
        (sym (ground arith))
        (subst
          (λ p.
            Owns (owner i) p (next_robbed owner i (s.pc i) s.words.lock s.robbed i)
              (access (owner i) stale c (s.pc i) s.words).1.lock)
          (ground arith)
          (mover-Owns owner i s.robbed
            (access-Effect (owner i) stale c (s.pc i) s.words (inv.knows i)) (inv.owns i)))
  | inr e ↦ rw e (
      other-Owns owner i s.robbed (access-Effect (owner i) stale c (s.pc i) s.words (inv.knows i))
        (inv.owns i) j e (λ h. ground (arith, inj i j h)) (s.pc j) (inv.owns j))
]

Reach-Inv :
    {owner : ℕ → ℕ}
    → ((i j : ℕ) → owner i ≡ owner j → i ≡ j)
    → {s : System} → Reach owner s
    → Inv owner s
unfolding initial
Reach-Inv inj start = record { knows = λ j. tt; owns = λ j. ground arith }
Reach-Inv {owner} inj (later i stale c {s} r) =
    let inv = Reach-Inv inj r in
    record { knows = step-Knows owner i stale c s inv; owns = step-Owns owner inj i stale c s inv }

-- With distinct owner ids, and however the threads' accesses interleave, no two threads whose hold
-- has not been ended by a recovery are between taking and releasing the file lock at once.
pub mutual_exclusion :
    {owner : ℕ → ℕ}
    → ((i j : ℕ) → owner i ≡ owner j → i ≡ j)
    → {s : System} → Reach owner s
    → (i j : ℕ) → is_critical (s.pc i) ≡ true
    → s.robbed i ≡ false
    → is_critical (s.pc j) ≡ true
    → s.robbed j ≡ false
    → i ≡ j
mutual_exclusion inj r i j ci ri cj rj =
    let inv = Reach-Inv inj r in
    let a = inv.owns i ci in let b = inv.owns j cj in inj i j (ground (arith, a, b))

-- A thread whose hold a recovery has ended, and that still believes that it holds the lock, leaves
-- the lock word as it is with its next access: its late release frees nobody else's hold.
pub robbed-keeps-lock :
    {owner : ℕ → ℕ}
    → ((i j : ℕ) → owner i ≡ owner j → i ≡ j)
    → {s : System} → Reach owner s
    → (i stale : ℕ) (c : Choice) → is_critical (s.pc i) ≡ true
    → s.robbed i ≡ true
    → (step owner stale i c s).words.lock ≡ s.words.lock
unfolding step
robbed-keeps-lock {owner} inj {s} r i stale c ci ri =
    let inv = Reach-Inv inj r in
    robbed-access (owner i) stale c (s.pc i) s.words ci (λ e. ground (arith, inv.owns i ci, e))
