-- ===== src/Vfs/PageSizes.antt =====
-- The page sizes that the pragma `page_size` accepts (src/MemoryWriteAheadVFS.ts).
use memory_write_ahead_vfs.Base.{
  ℤ, is_positive, pos_part, ℕ, zero, suc, ◌-◌, ◌*◌, ◌/◌, ◌%◌, ◌^◌, ◌≤◌, ◌<◌, ◌≡◌, ◌⊎◌, refl, inl,
  inr, ◌==◌, arith, Bool, true, false, ◌&&◌, Option, none, some, leb, leb→le, ==_iff, Bool-cases,
}
use Prim.Native.String.{String}
use native.Mathlib.Decide.{dec_lt}
use memory_write_ahead_vfs.Vfs.PragmaText.{is_word, parse_int, bit_and, accepted_page_size}
use memory_write_ahead_vfs.Vfs.{Platform, Session, sqlite_notfound}
use memory_write_ahead_vfs.Vfs.Control.{pragma, page_size_of, pragma_control, j_file_control}

parity : (n : ℕ) → (n % 2 ≡ 0) ⊎ (n % 2 ≡ 1)
parity n = elim (dec_lt (n % 2) 1) [
  | yes h ↦ inl (omega (arith, h))
  | no h ↦ inr (omega (arith, h))
]

twice : (width : ℕ) → 2 ^ suc width ≡ 2 * 2 ^ width
twice width = omega arith

and_true : (a b : Bool) → (a && b) ≡ true → (a ≡ true) × (b ≡ true)
and_true true true h = (refl, refl)
and_true true false h = absurd cc
and_true false b h = absurd cc

-- A number and itself.
bit_and-same : (width n : ℕ) → n < 2 ^ width → bit_and width n n ≡ n
unfolding bit_and
bit_and-same zero n h = omega arith
bit_and-same (suc width) n h =
    let rest = bit_and-same width (n / 2) (omega (arith, twice width)) in
    elim (parity n) [
      | inl e ↦ rw e (omega (arith, rest, e))
      | inr e ↦ rw e (omega (arith, rest, e))
    ]

-- A number that shares no bit with its predecessor is a power of two.
bit_and-pred :
    (width n : ℕ) → 0 < n → n < 2 ^ width → bit_and width n (n - 1) ≡ 0 → (k : ℕ) × (n ≡ 2 ^ k)
unfolding bit_and
bit_and-pred zero n pos h e = absurd (omega arith)
bit_and-pred (suc width) n pos h e =
    let rest : bit_and width (n / 2) ((n - 1) / 2) ≡ 0 = omega (arith, e) in
    elim (parity n) [
      | inl even ↦
          let half : (n - 1) / 2 ≡ n / 2 - 1 = omega (arith, even, pos) in
          let none_shared : bit_and width (n / 2) (n / 2 - 1) ≡ 0 = rw half at rest in
          let (k, power) =
            bit_and-pred width (n / 2) (omega (arith, even, pos)) (omega (arith, twice width))
              none_shared in
          (suc k, omega (arith, even, power, twice k))
      | inr odd ↦
          let half : (n - 1) / 2 ≡ n / 2 = omega (arith, odd) in
          let none_shared : bit_and width (n / 2) (n / 2) ≡ 0 = rw half at rest in
          let same = bit_and-same width (n / 2) (omega (arith, twice width)) in
          (0, omega (arith, odd, same, none_shared))
    ]

-- A power of two from 512 to 65536.
abbrev pub IsPageSize : ℕ → Type 0
IsPageSize size = (512 ≤ size) × (size ≤ 65536) × ((k : ℕ) × (size ≡ 2 ^ k))

pow2-IsPageSize :
    (parsed : ℕ)
    → (leb 512 parsed && (leb parsed 32768 && bit_and 16 parsed (parsed - 1) == 0)) ≡ true
    → IsPageSize parsed
pow2-IsPageSize parsed h =
    let (low, rest) = and_true (leb 512 parsed) _ h in
    let (high, shares) = and_true (leb parsed 32768) _ rest in
    let a = leb→le 512 parsed low in
    let b = leb→le parsed 32768 high in
    (
      a,
      omega (arith, b),
      bit_and-pred 16 parsed (omega (arith, a)) (omega (arith, b))
          ((==_iff (bit_and 16 parsed (parsed - 1)) 0).0 shares),
    )

abbrev Accepts : Option ℕ → Type 0
Accepts none = Unit
Accepts (some size) = IsPageSize size

accepted-Accepts : (parsed : ℕ) → Accepts (accepted_page_size parsed)
unfolding accepted_page_size
accepted-Accepts parsed = elim (Bool-cases (parsed == 1)) [
  | inl one ↦ rw one (omega arith, omega arith, (16, refl))
  | inr other ↦
      let test = leb 512 parsed && (leb parsed 32768 && bit_and 16 parsed (parsed - 1) == 0) in
      let accepts : Accepts (accepted_page_size parsed) = elim (Bool-cases test) [
        | inl e ↦ rw (other, e) (pow2-IsPageSize parsed e)
        | inr e ↦ rw (other, e) tt
      ] in
      accepts
]

-- The old page size, or a new one.
abbrev pub Keeps : Option ℕ → Option ℕ → Type 0
Keeps old now = (now ≡ old) ⊎ ((size : ℕ) × (now ≡ some size) × IsPageSize size)

accepted-Keeps :
    (old accepted : Option ℕ)
    → Accepts accepted
    → Keeps old (elim accepted [ none ↦ old | some size ↦ some size ])
accepted-Keeps old none a = inl refl
accepted-Keeps old (some size) a = inr (size, refl, a)

page_size_of-Keeps : (old : Option ℕ) (parsed : Option ℤ) → Keeps old (page_size_of old parsed)
page_size_of-Keeps old none = inl refl
page_size_of-Keeps old (some n) = elim (Bool-cases (is_positive n)) [
  | inl e ↦
      rw e (accepted-Keeps old (accepted_page_size (pos_part n)) (accepted-Accepts (pos_part n)))
  | inr e ↦ rw e (inl refl)
]

module _ {W L : Type 0} (p : Platform W L) where
  -- The pragma `page_size` passes on to SQLite, with any value or none, and leaves the file with its old page
  -- size or with one that is a power of two from 512 to 65536.
  pub page_size-IsPageSize :
      (value : Option String) (s : Session W L)
      → (let out = j_file_control p (pragma "page_size" value) s in
          (out.0 ≡ (sqlite_notfound, none)) × Keeps s.file.page_size out.1.file.page_size)
  unfolding j_file_control pragma_control is_word
  page_size-IsPageSize none s = (refl, inl refl)
  page_size-IsPageSize (some value) s =
      (refl, page_size_of-Keeps s.file.page_size (parse_int value))
