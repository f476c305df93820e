-- ===== src/Options/Laws.antt =====
-- What resolveMemoryWriteAheadRuntimeOptions lets through (src/memoryWriteAheadSharedRuntime.ts).
use memory_write_ahead_vfs.Base.{
  ℕ, ◌-◌, ◌*◌, ◌^◌, ◌≤◌, ◌<◌, ◌≡◌, refl, some, pos, Result, ok, err, ◌>>=◌, arith, lt→ltb, le→leb,
  le→ltb_false,
}
use memory_write_ahead_vfs.Counter.{max_int32_atomic_counter}
use memory_write_ahead_vfs.Options.{
  Number, integer, RuntimeOptions, ResolvedRuntimeOptions, assert_positive_integer,
  assert_positive_capacity_bytes, check_order, resolve_memory_write_ahead_runtime_options,
  or_default, mib, assemble,
}

-- The bounds on which the files and the locks rely.
pub record InBounds (r : ResolvedRuntimeOptions) : Type 0 where
  pub database_positive : 0 < r.initial_database_capacity_bytes
  pub database_order : r.initial_database_capacity_bytes ≤ r.max_database_capacity_bytes
  pub database_int32 : r.max_database_capacity_bytes ≤ max_int32_atomic_counter
  pub write_ahead_positive : 0 < r.initial_write_ahead_capacity_bytes
  pub write_ahead_order : r.initial_write_ahead_capacity_bytes ≤ r.max_write_ahead_capacity_bytes
  pub write_ahead_int32 : r.max_write_ahead_capacity_bytes ≤ max_int32_atomic_counter
  pub stale_positive : 0 < r.file_lock_stale_ms

positive_sound : (v : Number) {n : ℕ} → assert_positive_integer v ≡ ok n → 0 < n
unfolding assert_positive_integer
positive_sound v h = ground arith

capacity_sound :
    (v : Number) {n : ℕ}
    → assert_positive_capacity_bytes v ≡ ok n
    → (0 < n) × (n ≤ max_int32_atomic_counter)
unfolding assert_positive_capacity_bytes
capacity_sound v h = ground arith

check_order_sound :
    (r : ResolvedRuntimeOptions) {s : ResolvedRuntimeOptions}
    → check_order r ≡ ok s
    → (s ≡ r)
      × (r.initial_database_capacity_bytes ≤ r.max_database_capacity_bytes)
      × (r.initial_write_ahead_capacity_bytes ≤ r.max_write_ahead_capacity_bytes)
unfolding check_order
check_order_sound r h = ground arith

-- Five checks in a row succeed only together.
five-eq-ok :
    {E R : Type 0} (a b c d e : Result E ℕ) (k : ℕ → ℕ → ℕ → ℕ → ℕ → Result E R) {r : R}
    → (a >>= λ x. b >>= λ y. c >>= λ z. d >>= λ u. e >>= λ v. k x y z u v) ≡ ok r
    → (x y z u v : ℕ) × (a ≡ ok x)
      × (b ≡ ok y)
      × (c ≡ ok z)
      × (d ≡ ok u)
      × (e ≡ ok v)
      × (k x y z u v ≡ ok r)
five-eq-ok (ok x) (ok y) (ok z) (ok u) (ok v) k h = (x, y, z, u, v, refl, refl, refl, refl, refl, h)
five-eq-ok (ok x) (ok y) (ok z) (ok u) (err e) k h = cc
five-eq-ok (ok x) (ok y) (ok z) (err e) _ k h = cc
five-eq-ok (ok x) (ok y) (err e) _ _ k h = cc
five-eq-ok (ok x) (err e) _ _ _ k h = cc
five-eq-ok (err e) _ _ _ _ k h = cc

-- Options that are accepted are within the bounds, defaults included: each initial capacity is
-- positive and at most its maximum, the maxima fit the int32 slots, the stale time is positive.
pub resolve-InBounds :
    (options : RuntimeOptions) {r : ResolvedRuntimeOptions}
    → resolve_memory_write_ahead_runtime_options options ≡ ok r
    → InBounds r
unfolding resolve_memory_write_ahead_runtime_options
resolve-InBounds o h =
    let a = or_default o.initial_database_capacity_bytes (16 * mib) in
    let b = or_default o.max_database_capacity_bytes (1024 * mib) in
    let c = or_default o.initial_write_ahead_capacity_bytes (8 * mib) in
    let d = or_default o.max_write_ahead_capacity_bytes (512 * mib) in
    let e = or_default o.file_lock_stale_ms 30_000 in
    let (x, y, z, u, v, ha, hb, hc, hd, he, last) =
      five-eq-ok (assert_positive_capacity_bytes a) (assert_positive_capacity_bytes b)
        (assert_positive_capacity_bytes c) (assert_positive_capacity_bytes d)
        (assert_positive_integer e) (λ x y z u v. check_order (assemble o x y z u v)) h in
    let (same, database, write_ahead) = check_order_sound (assemble o x y z u v) last in
    rw same (record {
      database_positive = (capacity_sound a ha).0;
      database_order = database;
      database_int32 = (capacity_sound b hb).1;
      write_ahead_positive = (capacity_sound c hc).0;
      write_ahead_order = write_ahead;
      write_ahead_int32 = (capacity_sound d hd).1;
      stale_positive = positive_sound e he;
    })

-- Every option written out.
abbrev pub written_out : ResolvedRuntimeOptions → RuntimeOptions
written_out r = record {
  allow_fixed_capacity_fallback = some r.allow_fixed_capacity_fallback;
  initial_database_capacity_bytes = some (integer (pos r.initial_database_capacity_bytes));
  max_database_capacity_bytes = some (integer (pos r.max_database_capacity_bytes));
  initial_write_ahead_capacity_bytes = some (integer (pos r.initial_write_ahead_capacity_bytes));
  max_write_ahead_capacity_bytes = some (integer (pos r.max_write_ahead_capacity_bytes));
  file_lock_stale_ms = some (integer (pos r.file_lock_stale_ms));
}

positive_complete :
    (n : ℕ) → 0 < n → n ≤ 2 ^ 53 - 1 → assert_positive_integer (integer (pos n)) ≡ ok n
unfolding assert_positive_integer
positive_complete n h k = rw (lt→ltb 0 n h) (rw (le→leb n (2 ^ 53 - 1) k))

capacity_complete :
    (n : ℕ)
    → 0 < n
    → n ≤ max_int32_atomic_counter
    → assert_positive_capacity_bytes (integer (pos n)) ≡ ok n
unfolding assert_positive_capacity_bytes
capacity_complete n h k = ground (arith, positive_complete n h (omega arith))

check_order_complete : (r : ResolvedRuntimeOptions) → InBounds r → check_order r ≡ ok r
unfolding check_order
check_order_complete r b =
    rw (le→ltb_false _ _ b.database_order) (rw (le→ltb_false _ _ b.write_ahead_order))

-- Options within the bounds, with a stale time that is a safe integer, are accepted as they stand.
pub resolve-accepts :
    (r : ResolvedRuntimeOptions)
    → InBounds r
    → r.file_lock_stale_ms ≤ 2 ^ 53 - 1
    → resolve_memory_write_ahead_runtime_options (written_out r) ≡ ok r
unfolding resolve_memory_write_ahead_runtime_options
resolve-accepts r b safe =
    rw
      (
        capacity_complete r.initial_database_capacity_bytes b.database_positive
            (omega (arith, b.database_order, b.database_int32)),
        resolve_memory_write_ahead_runtime_options,
      )
      (rw
        (capacity_complete r.max_database_capacity_bytes
          (omega (arith, b.database_order, b.database_positive)) b.database_int32)
        (rw
          (capacity_complete r.initial_write_ahead_capacity_bytes b.write_ahead_positive
            (omega (arith, b.write_ahead_order, b.write_ahead_int32)))
          (rw
            (capacity_complete r.max_write_ahead_capacity_bytes
              (omega (arith, b.write_ahead_order, b.write_ahead_positive)) b.write_ahead_int32)
            (rw (positive_complete r.file_lock_stale_ms b.stale_positive safe)
              (check_order_complete r b)))))
