-- ===== src/SharedFile/Invariant/Segments.antt =====
-- Replacing one segment, read through `contents_at`, `filled` and `limit`.
use memory_write_ahead_vfs.Base.{
  ℕ, zero, suc, ◌-◌, ◌<◌, ◌≡◌, refl, some, List, [], ◌∷◌, max, length, get_elem?, get_or, set,
  replicate, ◌==◌, ◌&&◌, ltb, if◌then◌else◌, arith, length-append, length-replicate,
  get_or-append_replicate,
}
use memory_write_ahead_vfs.SharedFile.{Segment, byte_length}
use memory_write_ahead_vfs.SharedFile.Capacity.{grow_buffer}
use memory_write_ahead_vfs.SharedFile.Invariant.{contents_at, filled}

pub get_elem?-set :
    {A : Type 0} (xs : List A) (i j : ℕ) (v : A)
    → get_elem? (set xs i v) j ≡ (if (i == j) && ltb i (length xs) then some v else get_elem? xs j)
get_elem?-set [] i j v = ground arith
get_elem?-set (x ∷ xs) zero zero v = ground arith
get_elem?-set (x ∷ xs) zero (suc j) v = ground arith
get_elem?-set (x ∷ xs) (suc i) zero v = ground arith
get_elem?-set (x ∷ xs) (suc i) (suc j) v = ground (arith, get_elem?-set xs i j v)

pub get_elem?-lt {ℓ} :
    {A : Type ℓ} (xs : List A) (i : ℕ) {v : A} → get_elem? xs i ≡ some v → i < length xs
get_elem?-lt [] i e = cc
get_elem?-lt (x ∷ xs) zero e = omega arith
get_elem?-lt (x ∷ xs) (suc i) e = omega (arith, get_elem?-lt xs i e)

pub get_elem?-some {ℓ} :
    {A : Type ℓ} (xs : List A) (i : ℕ) → i < length xs → (v : A) × (get_elem? xs i ≡ some v)
get_elem?-some [] i h = absurd (omega arith)
get_elem?-some (x ∷ xs) zero h = (x, refl)
get_elem?-some (x ∷ xs) (suc i) h = get_elem?-some xs i (omega arith)

pub length-grow_buffer :
    (bytes : List ℕ) (n : ℕ) → length (grow_buffer bytes n) ≡ max (length bytes) n
length-grow_buffer bytes n = omega (
  arith,
  length-append bytes (replicate (n - length bytes) 0),
  length-replicate {A = ℕ} (n - length bytes) 0,
)

pub get_or-grow_buffer :
    (bytes : List ℕ) (n o : ℕ) → get_or (grow_buffer bytes n) o 0 ≡ get_or bytes o 0
get_or-grow_buffer bytes n o = get_or-append_replicate bytes (n - length bytes) o 0

pub contents_at-some :
    (ss : List Segment) (k : ℕ) {s : Segment}
    → get_elem? ss k ≡ some s
    → contents_at ss k ≡ s.contents
contents_at-some ss k here = ground (arith, here)

pub filled-some :
    (ss : List Segment) (k : ℕ) {s : Segment}
    → get_elem? ss k ≡ some s
    → filled ss k ≡ byte_length s
filled-some ss k here = ground (arith, here)
