-- ===== src/AttachedLock/Laws.antt =====
-- What trying, releasing and retrying the transaction lock of src/MemoryWriteAheadVFS.ts do.
use memory_write_ahead_vfs.Base.{
  Bool, true, false, ◌||◌, not, List, [], ◌∷◌, ℤ, pos, neg, eqb_ℤ, eqb_ℤ_refl, if◌then◌else◌, ok,
  err, ◌≡◌, refl, sym, ap, ◌∙◌, inl, inr, Bool-cases,
}
use mathlib.Core.Path.{subst}
use memory_write_ahead_vfs.SharedFile.{TransactionWords}
use memory_write_ahead_vfs.AttachedLock.{
  AttachedFile, AttachedError, missing_lock_state, quarantined, lost_claim, timed_out, Attached,
  Others, with_held, finish_claim, try_lock_attached_database, release_attached_database_lock, Try,
  RetryResult, acquired, failed, give_up, after_try, retry_lock_attached_database,
}

abbrev pub nobody : Others
nobody w = w

-- The file has what the lock needs, and does not hold it.
abbrev pub IsReady : AttachedFile → Type 0
IsReady f =
    (f.attached_transaction_lock_held ≡ false)
    × (f.has_shared_file ≡ true)
    × (eqb_ℤ f.attached_transaction_lock_owner_id (pos 0) ≡ false)
    × (eqb_ℤ f.attached_transaction_lock_runtime_owner_id (pos 0) ≡ false)

abbrev pub locked_words : AttachedFile → TransactionWords → TransactionWords
locked_words f w = record w {
  transaction_lock = f.attached_transaction_lock_owner_id;
  transaction_lock_runtime_owner = f.attached_transaction_lock_runtime_owner_id;
}

-- With nobody in between, a file that is ready gets the lock exactly when the file is not quarantined
-- and the word is 0, and then the word and the runtime owner are its own; a quarantined file throws,
-- a word that is taken fails the try, and neither changes anything.
pub try_lock-nobody :
    (f : AttachedFile) (w : TransactionWords)
    → IsReady f
    → try_lock_attached_database nobody (record { file = f; words = w }) ≡ (
        if not (eqb_ℤ w.abandoned_transaction (pos 0))
        then (err quarantined, record { file = f; words = w })
        else if eqb_ℤ w.transaction_lock (pos 0)
        then (ok true, record { file = with_held true f; words = locked_words f w })
        else (ok false, record { file = f; words = w }))
unfolding try_lock_attached_database finish_claim
try_lock-nobody f w (h, s, o, r) = elim (Bool-cases (eqb_ℤ w.abandoned_transaction (pos 0))) [
  | inr a ↦ rw (h, s, o, r, a) refl
  | inl a ↦ elim (Bool-cases (eqb_ℤ w.transaction_lock (pos 0))) [
    | inr b ↦ rw (h, s, o, r, a, b) refl
    | inl b ↦ rw (h, s, o, r, a, b, eqb_ℤ_refl (neg f.attached_transaction_lock_owner_id)) refl
  ]
]

-- A release whose word is not the file's own, as after a reset, leaves the slots as they are, whatever
-- the other contexts would do in between.
pub release-foreign :
    (meanwhile : Others) (f : AttachedFile) (w : TransactionWords)
    → eqb_ℤ w.transaction_lock f.attached_transaction_lock_owner_id ≡ false
    → (release_attached_database_lock meanwhile (record { file = f; words = w })).words ≡ w
unfolding release_attached_database_lock
release-foreign meanwhile f w e =
    elim (Bool-cases (
      not f.attached_transaction_lock_held
      || (not f.has_shared_file || eqb_ℤ f.attached_transaction_lock_owner_id (pos 0)))) [
        | inl g ↦ rw g refl
        | inr g ↦ rw (g, e) refl
      ]

release-held :
    (f : AttachedFile) (w : TransactionWords)
    → IsReady f
    → release_attached_database_lock nobody
        (record { file = with_held true f; words = locked_words f w })
      ≡ record {
        file = with_held false f;
        words = record w { transaction_lock = pos 0; transaction_lock_runtime_owner = pos 0 };
      }
unfolding release_attached_database_lock
release-held f w (h, s, o, r) =
    rw
      (
        s,
        o,
        eqb_ℤ_refl f.attached_transaction_lock_owner_id,
        eqb_ℤ_refl (neg f.attached_transaction_lock_owner_id),
      )
      refl

eqb_ℤ_of_eq : (a : ℤ) → a ≡ pos 0 → eqb_ℤ a (pos 0) ≡ true
eqb_ℤ_of_eq a e = rw e refl

-- A lock taken and released with nobody in between is free again: the slots are as they were, but for
-- the runtime owner, which is 0.
pub try_lock-release :
    (f : AttachedFile) (w : TransactionWords)
    → IsReady f
    → eqb_ℤ w.abandoned_transaction (pos 0) ≡ true
    → w.transaction_lock ≡ pos 0
    → release_attached_database_lock nobody
        (try_lock_attached_database nobody (record { file = f; words = w })).1
      ≡ record { file = f; words = record w { transaction_lock_runtime_owner = pos 0 } }
try_lock-release f w (h, s, o, r) a b =
    let e : try_lock_attached_database nobody (record { file = f; words = w })
        ≡ (ok true, record { file = with_held true f; words = locked_words f w }) =
      try_lock-nobody f w (h, s, o, r) ∙ rw (a, eqb_ℤ_of_eq w.transaction_lock b) refl in
    ap (λ x. release_attached_database_lock nobody x.1) e
    ∙ (release-held f w (h, s, o, r)
        ∙ (ap
              (λ x. record {
                file = with_held x f;
                words = record w {
                  transaction_lock = pos 0;
                  transaction_lock_runtime_owner = pos 0;
                };
              })
              (sym h)
            ∙ ap
                (λ x. record {
                  file = f;
                  words = record w { transaction_lock = x; transaction_lock_runtime_owner = pos 0 };
                })
                (sym b)))

-- What a retry has come to. Once it has the lock, the file holds it and the word is the file's own. If
-- it has failed, the file does not hold it, and the slots show why: the lock is another's where the time
-- is up, the file is marked where it is quarantined, and the claim is gone where it was lost.
abbrev pub Fails : AttachedError → AttachedFile → TransactionWords → Type 0
Fails timed_out f w =
    (eqb_ℤ w.transaction_lock (pos 0) ≡ false) × (eqb_ℤ w.abandoned_transaction (pos 0) ≡ true)
Fails quarantined f w = eqb_ℤ w.abandoned_transaction (pos 0) ≡ false
Fails lost_claim f w = eqb_ℤ w.transaction_lock (neg f.attached_transaction_lock_owner_id) ≡ false
Fails missing_lock_state f w = ⊥

pub data Ended (f : AttachedFile) : RetryResult × Attached → Type 0 where
  has_lock :
      (w : TransactionWords)
      → w.transaction_lock ≡ f.attached_transaction_lock_owner_id
      → Ended f (acquired, record { file = with_held true f; words = w })
  has_failed :
      (e : AttachedError) (w : TransactionWords)
      → Fails e f w
      → Ended f (failed e, record { file = f; words = w })

-- The time is up after one of the tries.
abbrev pub has_deadline : List Try → Bool
has_deadline [] = false
has_deadline (t ∷ ts) = t.is_expired || has_deadline ts

give_up-idle :
    (releasing : Others) (e : AttachedError) (f : AttachedFile) (w : TransactionWords)
    → IsReady f
    → give_up releasing e (record { file = f; words = w })
      ≡ (failed e, record { file = f; words = w })
unfolding give_up release_attached_database_lock
give_up-idle releasing e f w (h, s, o, r) = rw h refl

give_up-Ended :
    (releasing : Others) (e : AttachedError) (f : AttachedFile) (w : TransactionWords)
    → IsReady f
    → Fails e f w
    → Ended f (give_up releasing e (record { file = f; words = w }))
give_up-Ended releasing e f w ready fails =
    subst (λ out. Ended f out) (sym (give_up-idle releasing e f w ready)) (has_failed e w fails)

-- A try up to the compare-exchange that claims.
try_lock-claims :
    (within : Others) (f : AttachedFile) (w : TransactionWords)
    → IsReady f
    → try_lock_attached_database within (record { file = f; words = w }) ≡ (
        if not (eqb_ℤ w.abandoned_transaction (pos 0))
        then (err quarantined, record { file = f; words = w })
        else if not (eqb_ℤ w.transaction_lock (pos 0))
        then (ok false, record { file = f; words = w })
        else finish_claim within f w)
unfolding try_lock_attached_database
try_lock-claims within f w (h, s, o, r) = rw (h, s, o, r) refl

finish_claim-Ended :
    (releasing : Others) (t : Try) (rest : Attached → RetryResult × Attached) (f : AttachedFile)
    (w : TransactionWords)
    → IsReady f
    → Ended f (after_try releasing t rest (finish_claim t.within f w))
unfolding finish_claim after_try
finish_claim-Ended releasing t rest f w ready =
    let claimed = t.within (record w {
      transaction_lock = neg f.attached_transaction_lock_owner_id;
      transaction_lock_runtime_owner = f.attached_transaction_lock_runtime_owner_id;
    }) in
    elim (Bool-cases (eqb_ℤ claimed.transaction_lock (neg f.attached_transaction_lock_owner_id))) [
      | inl won ↦ rw won (
          has_lock (record claimed { transaction_lock = f.attached_transaction_lock_owner_id })
            refl)
      | inr lost ↦ rw lost (give_up-Ended releasing lost_claim f claimed ready lost)
    ]

taken-Ended :
    (releasing : Others) (t : Try) (ts : List Try) (rest : Attached → RetryResult × Attached)
    (f : AttachedFile) (w : TransactionWords)
    → IsReady f
    → has_deadline (t ∷ ts) ≡ true
    → eqb_ℤ w.abandoned_transaction (pos 0) ≡ true
    → eqb_ℤ w.transaction_lock (pos 0) ≡ false
    → (has_deadline ts ≡ true → Ended f (rest (record { file = f; words = t.during w })))
    → Ended f (after_try releasing t rest (ok false, record { file = f; words = w }))
unfolding after_try
taken-Ended releasing t ts rest f w ready up trusted taken next = elim (Bool-cases t.is_expired) [
  | inl e ↦ rw e (give_up-Ended releasing timed_out f w ready (taken, trusted))
  | inr e ↦ rw e (next (rw e at up))
]

after_try-Ended :
    (releasing : Others) (t : Try) (ts : List Try) (rest : Attached → RetryResult × Attached)
    (f : AttachedFile) (w : TransactionWords)
    → IsReady f
    → has_deadline (t ∷ ts) ≡ true
    → (has_deadline ts ≡ true → Ended f (rest (record { file = f; words = t.during w })))
    → Ended f (
        after_try releasing t rest
          (try_lock_attached_database t.within (record { file = f; words = w })))
after_try-Ended releasing t ts rest f w ready up next =
    subst (λ x. Ended f (after_try releasing t rest x)) (sym (try_lock-claims t.within f w ready))
      (elim (Bool-cases (eqb_ℤ w.abandoned_transaction (pos 0))) [
        | inr a ↦ rw a (unfold after_try in give_up-Ended releasing quarantined f w ready a)
        | inl a ↦ elim (Bool-cases (eqb_ℤ w.transaction_lock (pos 0))) [
          | inl b ↦ rw (a, b) (finish_claim-Ended releasing t rest f w ready)
          | inr b ↦ rw (a, b) (taken-Ended releasing t ts rest f w ready up a b next)
        ]
      ])

-- A retry of a file that is ready, whose time is up after some try, ends by then, whatever the other
-- contexts do during its waits and between the accesses of its tries: the file holds the lock and the
-- word is its own, or it does not hold it, and the lock was another's when the time was up, the file
-- is quarantined, or the claim was lost.
pub retry_lock-Ended :
    (releasing : Others) (tries : List Try) (f : AttachedFile) (w : TransactionWords)
    → IsReady f
    → has_deadline tries ≡ true
    → Ended f (retry_lock_attached_database releasing tries (record { file = f; words = w }))
unfolding retry_lock_attached_database
retry_lock-Ended releasing [] f w ready up = absurd cc
retry_lock-Ended releasing (t ∷ ts) f w ready up =
    after_try-Ended releasing t ts (retry_lock_attached_database releasing ts) f w ready up
      (λ later. retry_lock-Ended releasing ts f (t.during w) ready later)
