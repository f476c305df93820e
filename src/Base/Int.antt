-- ===== src/Base/Int.antt =====
-- Signed integers over the native numbers: the contents of an `Int32Array` slot.
use Prim.Native.Nat.{ℕ, zero, suc, ◌+◌, ◌-◌, ◌%◌, ◌^◌, ◌≤◌}
use mathlib.Core.Path.{◌≡◌, refl}
use mathlib.Core.Bool.{Bool, true, false}
use native.Mathlib.Omega.{arith}
use memory_write_ahead_vfs.Base.Tests.{ltb, leb, ◌==◌, if◌then◌else◌}

-- `negsuc n` is -(n + 1).
pub data ℤ : Type 0 where
  pos : ℕ → ℤ
  negsuc : ℕ → ℤ

abbrev pub pos_part : ℤ → ℕ
pos_part (pos n) = n
pos_part (negsuc n) = 0

abbrev pub neg_part : ℤ → ℕ
neg_part (pos n) = 0
neg_part (negsuc n) = suc n

abbrev pub neg : ℤ → ℤ
neg (pos zero) = pos 0
neg (pos (suc n)) = negsuc n
neg (negsuc n) = pos (suc n)

abbrev pub eqb_ℤ : ℤ → ℤ → Bool
eqb_ℤ (pos a) (pos b) = a == b
eqb_ℤ (negsuc a) (negsuc b) = a == b
eqb_ℤ (pos a) (negsuc b) = false
eqb_ℤ (negsuc a) (pos b) = false

abbrev pub ltb_ℤ : ℤ → ℤ → Bool
ltb_ℤ a b = ltb (pos_part a + neg_part b) (pos_part b + neg_part a)

abbrev pub leb_ℤ : ℤ → ℤ → Bool
leb_ℤ a b = leb (pos_part a + neg_part b) (pos_part b + neg_part a)

infix 50 ◌≤ℤ◌
abbrev pub ◌≤ℤ◌ : ℤ → ℤ → Type 0
a ≤ℤ b = pos_part a + neg_part b ≤ pos_part b + neg_part a

pub eqb_ℤ-eq : (a b : ℤ) → eqb_ℤ a b ≡ true → a ≡ b
eqb_ℤ-eq (pos a) (pos b) h = ground arith
eqb_ℤ-eq (negsuc a) (negsuc b) h = ground arith
eqb_ℤ-eq (pos a) (negsuc b) h = ground arith
eqb_ℤ-eq (negsuc a) (pos b) h = ground arith

pub eqb_ℤ_refl : (a : ℤ) → eqb_ℤ a a ≡ true
eqb_ℤ_refl (pos a) = ground arith
eqb_ℤ_refl (negsuc a) = ground arith

pub neg-neg : (a : ℤ) → neg (neg a) ≡ a
neg-neg (pos zero) = refl
neg-neg (pos (suc n)) = refl
neg-neg (negsuc n) = refl

abbrev pub add_ℕ : ℤ → ℕ → ℤ
add_ℕ (pos n) d = pos (n + d)
add_ℕ (negsuc n) d = if leb d n then negsuc (n - d) else pos (d - n - 1)

abbrev pub sub_ℕ : ℤ → ℕ → ℤ
sub_ℕ (pos n) d = if leb d n then pos (n - d) else negsuc (d - n - 1)
sub_ℕ (negsuc n) d = negsuc (n + d)

-- What an `Int32Array` slot keeps of an integer: its low 32 bits, read as two's complement.
abbrev pub to_int32 : ℤ → ℤ
to_int32 (pos n) =
    if ltb (n % 2 ^ 32) (2 ^ 31) then pos (n % 2 ^ 32) else negsuc (2 ^ 32 - 1 - n % 2 ^ 32)
to_int32 (negsuc n) =
    if ltb (n % 2 ^ 32) (2 ^ 31) then negsuc (n % 2 ^ 32) else pos (2 ^ 32 - 1 - n % 2 ^ 32)

-- `Atomics.add` and `Atomics.sub` on an `Int32Array` slot wrap around.
abbrev pub atomic_add : ℤ → ℕ → ℤ
atomic_add a d = to_int32 (add_ℕ a d)

abbrev pub atomic_sub : ℤ → ℕ → ℤ
atomic_sub a d = to_int32 (sub_ℕ a d)

abbrev pub is_positive : ℤ → Bool
is_positive a = ltb_ℤ (pos 0) a

-- An addition that stays below 2^31 does not wrap.
pub atomic_add-pos : (n d : ℕ) → suc (n + d) ≤ 2 ^ 31 → atomic_add (pos n) d ≡ pos (n + d)
atomic_add-pos n d h = ground arith

pub atomic_sub-pos : (n d : ℕ) → d ≤ n → suc n ≤ 2 ^ 31 → atomic_sub (pos n) d ≡ pos (n - d)
atomic_sub-pos n d h k = ground arith
