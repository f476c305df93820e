-- ===== src/SharedFile/Arith.antt =====
-- Offsets and segment counts: the division facts behind findSegmentAtOffset and the segment counts
-- (src/memoryWriteAheadSharedRuntime.ts).
use native.Mathlib.Nat.{div-add-mod', mod-lt, div-eq_of_lt-le}
use memory_write_ahead_vfs.Base.{ℕ, zero, suc, ◌+◌, ◌-◌, ◌*◌, ◌/◌, ◌%◌, ◌≤◌, ◌<◌, ◌≡◌, arith}
use memory_write_ahead_vfs.SharedFile.Capacity.{ceil_div}

pub mul_mono : (a b c : ℕ) → a ≤ b → a * c ≤ b * c
mul_mono a b c h = grind arith

-- An offset lies in the segment that the division names, at the remainder.
pub div_within :
    (i c : ℕ)
    → 0 < c
    → (i / c * c ≤ i) × (i < i / c * c + c) × (i % c ≡ i - i / c * c) × (i % c < c)
div_within i c h = (
  omega (arith, div-add-mod' i c),
  omega (arith, div-add-mod' i c, mod-lt i h),
  omega (arith, div-add-mod' i c),
  mod-lt i h,
)

pub div_unique : (i c q : ℕ) → q * c ≤ i → i < q * c + c → i / c ≡ q
div_unique i c q lo hi = div-eq_of_lt-le c lo (grind arith)

pub pred_mul : (q c : ℕ) → (q - 1) * c ≡ q * c - c
pred_mul zero c = omega arith
pred_mul (suc q) c = grind arith

pub lt_of_mul-lt : (a b c : ℕ) → a * c < b * c → a < b
lt_of_mul-lt a b c h = grind arith

pub ceil_div_bounds :
    (n c : ℕ)
    → 0 < c
    → 0 < n
    → (n ≤ ceil_div n c * c) × ((ceil_div n c - 1) * c < n) × (1 ≤ ceil_div n c)
ceil_div_bounds n c h k = (upper, omega (arith, lower, pred_mul q c), one)
  where
    q : ℕ
    q = ceil_div n c

    upper : n ≤ q * c
    upper = omega (arith, (div_within (n + c - 1) c h).1)

    one : 1 ≤ q
    one = lt_of_mul-lt 0 q c (omega (arith, upper))

    lower : q * c < n + c
    lower = omega (arith, (div_within (n + c - 1) c h).0)

pub suc_mul : (k c : ℕ) → (k + 1) * c ≡ k * c + c
suc_mul k c = grind arith
